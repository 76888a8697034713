-- ===== src/TpCorregido.antt =====
-- material-clases/TP_Corregido: the Writer and the Reader that talk over a named FIFO.
pub mod Protocol
pub mod Spec
pub mod Writer
pub mod Reader
pub mod Kernel
pub mod Link
pub mod Together
pub mod Interrupted
mod Tests
