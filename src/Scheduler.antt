-- ===== src/Scheduler.antt =====
-- internal/platform/scheduler/scheduler.go: where instances are placed, what is released from nodes
-- that are lost, and what is moved off nodes that drain.
pub mod Types
pub mod Select
pub mod Ranking
pub mod Release
pub mod Drain
pub mod Place
pub mod Lawful
pub mod Moves
pub mod Drained
pub mod Placing
pub mod Pass
pub mod Examples
