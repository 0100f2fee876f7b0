-- ===== src/Controller.antt =====
-- pkg/buildkit/controller.go: the debug controller between BuildKit's solver and the handler.
pub mod Sources
pub mod Active
pub mod Solve
pub mod Pauses
pub mod Results
pub mod Slots
pub mod Registers
pub mod Worker
pub mod Reports
pub mod Loop
pub mod Resume
