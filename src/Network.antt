-- ===== src/Network.antt =====
-- internal/platform/network: the networks of a project, the slice of each that a node hands out, and
-- the addresses of the instances.
pub mod Addresses
pub mod Adding
pub mod Ipam
pub mod Searching
pub mod Choosing
pub mod Rows
pub mod Service
pub mod Leases
pub mod Lawful
pub mod Stating
pub mod Seconds
pub mod Leasing
pub mod Attaching
pub mod Dividing
pub mod Making
pub mod Requests
pub mod Keeping
mod Examples
