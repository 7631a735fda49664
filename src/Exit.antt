-- ===== src/Exit.antt =====
-- internal/vpn/exit.go and usexit.go: routing the traffic of the containers through an exit gate of
-- the mesh. The children model the rules it installs, the exclusions it plans, the confirmation, and
-- the whole selection.
pub mod Rules
pub mod Plan
pub mod Gate
pub mod Confirm
pub mod BootGuard
pub mod Prepare
pub mod Outcome
pub mod Select
mod Simulated
mod Tests
