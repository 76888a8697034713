-- ===== src/Echo.antt =====
-- material-clases/clase5/unix: a server that sends back what it receives over a local socket, and its client.
pub mod Server
pub mod Client
pub mod Arrays
pub mod Turn
pub mod Session
mod Tests
