-- ===== src/TpCorregido/Together.antt =====
-- material-clases/TP_Corregido: the Writer and the Reader running at the same time, at the two ends of the
-- FIFO.
pub mod Kernels
pub mod Reading
pub mod EveryOrder
