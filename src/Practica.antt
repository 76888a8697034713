-- ===== src/Practica.antt =====
-- material-clases/clase6/practica_resolviendo: a TCP server that serves each client in a thread of its
-- own, with the data of the clients in a pool.
pub mod ClientData
pub mod Worker
pub mod Server
pub mod Client
pub mod Connection
pub mod Session
mod Tests
