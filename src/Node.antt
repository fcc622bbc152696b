-- ===== src/Node.antt =====
-- internal/platform/node: the nodes that registered, their labels, and the devices that they hold.
pub mod Rows
pub mod Service
pub mod Devices
pub mod Holding
pub mod Reporting
pub mod Claiming
pub mod Nodes
pub mod Requests
mod Examples
