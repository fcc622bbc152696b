-- ===== src/Autoscale.antt =====
-- internal/platform/autoscale: the decision on the size of a group of instances.
pub mod Decide
pub mod Allowed
mod Examples
