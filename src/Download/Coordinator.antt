-- ===== src/Download/Coordinator.antt =====
-- internal/download/coordinator.go, availability.go, selection.go, endgame.go and choke.go.
pub mod State
pub mod Availability
pub mod Selection
pub mod Endgame
pub mod Handlers
pub mod Choke
pub mod Tasks
pub mod Orders
