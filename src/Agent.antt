-- ===== src/Agent.antt =====
-- internal/agent: the bookkeeping of the agent that runs on each node.
pub mod Restart
pub mod Backoff
pub mod Restarting
pub mod Health
pub mod Probing
pub mod Examples
