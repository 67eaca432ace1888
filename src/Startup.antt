-- ===== src/Startup.antt =====
-- src/main.rs: the start of the server, and the routes of a request. The sockets, the logger and the
-- signals are not here.
pub mod ConfigFile
pub mod Loading
pub mod Addresses
pub mod Start
pub mod Sound
pub mod Serves
pub mod Router
pub mod Routing
mod Runs
mod Calls
