-- ===== src/Dap.antt =====
-- pkg/dap: the server of the Debug Adapter Protocol and the debugger behind it.
pub mod Messages
pub mod Strings
pub mod Debugger
pub mod Requests
pub mod Server
pub mod Io
pub mod Exec
pub mod Lines
pub mod Ready
pub mod Answers
pub mod Pages
pub mod Features
pub mod Steps
pub mod Stops
pub mod LineStops
pub mod Serve
