-- ===== src/Tokens/Pair.antt =====
-- material-clases/clase7/ejemplo-msq: the token server and a client of it, running at the same time.
pub mod Kernels
pub mod Client
pub mod Turn
pub mod Session
mod Tests
