-- ===== src/Download.antt =====
-- internal/download: the coordinator of a download and the connections that report to it.
pub mod Command
pub mod Rates
pub mod Progress
pub mod Serve
pub mod Worker
pub mod System
pub mod Session
pub mod Have
pub mod Main
pub mod Assembly
pub mod Coordinator
pub mod Tests
