-- ===== src/Udp.antt =====
-- material-clases/clase5/udp1 and udp2: a datagram and, in udp2, two answers to it.
pub mod Server
pub mod Client
pub mod First
pub mod Datagrams
pub mod Session
mod Tests
