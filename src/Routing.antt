-- ===== src/Routing.antt =====
-- internal/runtime/tlsproxy/route.go: which backend a request to a balancer with routes goes to.
pub mod Routes
pub mod Matching
pub mod Chosen
mod Examples
