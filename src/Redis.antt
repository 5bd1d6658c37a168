-- ===== src/Redis.antt =====
-- Redis as the services use it: an interface with the documented effect of each command on the
-- typed views of the store, and the actions that send commands to it.
mod Server
pub mod Io
pub mod Commands
pub mod Laws
pub mod Runs
pub mod Memory
pub use Server.{Redis, Stored, json, plain, tail}
unfoldable pub use Server.{loads}
