-- ===== src/Main.antt =====
-- main.go: the directory that a command works in, its options, and the writer of the build's progress.
pub mod Os
pub mod Roots
pub mod Options
pub mod Rootless
pub mod Flags
pub mod Actions
pub mod Progress
