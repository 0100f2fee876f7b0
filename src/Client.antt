-- ===== src/Client.antt =====
-- pkg/buildkit/client.go: BuildKit's client, its setup, and the builds that are debugged with it.
pub mod Setup
pub mod Debug
pub mod Usage
pub mod Pipe
