-- ===== src/Getaddr.antt =====
-- material-clases/clase5/getaddr: a server and its client, which find their addresses by getaddrinfo.
pub mod Server
pub mod Client
pub mod Session
mod Tests
