-- ===== src/NamedFifo.antt =====
-- material-clases/clase4/ejemplo-named-fifo: lines that one program types into a FIFO and another shows.
pub mod Writer
pub mod Reader
pub mod Kernel
pub mod Typed
mod Tests
