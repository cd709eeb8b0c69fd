-- ===== src/Provider.antt =====
-- provider/plan.go: the target planner and the identity of firewall functions.
pub mod Types
pub mod Ports
pub mod Description
pub mod Keys
pub mod Desired
pub mod Snapshot
pub mod Cleanup
pub mod Plan
