-- ===== src/Tp.antt =====
-- material-clases/TP, the first version of the Writer and the Reader.
pub mod Writer
pub mod Reader
pub mod Same
pub mod Runs
