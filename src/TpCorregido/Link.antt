-- ===== src/TpCorregido/Link.antt =====
-- The Writer, the FIFO and the Reader together, on the kernel of Kernel.
pub mod Steps
pub mod Lockstep
pub mod Backlog
pub mod Split
pub mod Session
pub mod Ends
pub mod Pipeline
