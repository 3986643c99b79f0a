-- ===== src/Server.antt =====
-- core/server: the parts of the server that keep state for a connection.
pub mod Session
pub mod Sessions
pub mod Sending
pub mod Copy
pub mod PreAuth
pub mod Runs
