-- ===== src/Posix.antt =====
-- A C program as a tree of the system calls that it makes. What the kernel answers is left open:
-- a tree has one branch for each answer, and `run` takes the kernel as an argument.
mod Defs
pub mod Sys
pub mod Terminal
mod Laws
pub mod Blocking
mod Interrupts
pub use Defs.{
  Signal, sigint, sigpipe, sigusr1, sigusr2, sigalrm, sigchld, other_signal, Handler, sig_handler,
  sigusr_handler, alarm_handler, child_handler, Arg, num, str, NodeType, fifo_node, regular_node,
  OpenFlags, rdonly, wronly, rdwr, MqMode, create_rdonly, open_wronly, Ret, fail, ok, Call, Reply,
  Prog, done, exit, fault, call, ◌>>=◌, ◌>>◌, lift, eintr, eexist, etimedout, exit_success,
  exit_failure, stdin_fileno, stdout_fileno, failed, Outcome, running, exited, crashed, enosys,
  unsupported,
}
unfoldable pub use Defs.{run}
unfoldable pub use Interrupts.{run_interrupted}
pub use Sys.{die_if, clip}
pub use Laws.{>>=_assoc, call-cong, resume, run->>=}
