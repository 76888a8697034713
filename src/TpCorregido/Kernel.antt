-- ===== src/TpCorregido/Kernel.antt =====
-- The kernel under the Writer and the Reader, as POSIX documents it: a terminal that gives typed
-- lines, a FIFO that keeps no message boundaries, and two files written from their positions on.
use cese_sopg_github_io.Common.{String, ℕ, ◌+◌, List, ◌++◌, if◌then◌else◌, ◌==◌, length, take, drop}
use cese_sopg_github_io.Memory.{Bytes}
use cese_sopg_github_io.Posix.{Call, rdonly, wronly, Reply, unsupported, Ret, fail, ok}
pub use cese_sopg_github_io.Posix.Terminal.{terminal_bytes, terminal_rest, put_back}
use cese_sopg_github_io.TpCorregido.Reader.{Files, file_name_data, file_name_sign}
use cese_sopg_github_io.Posix.{stdin_fileno}
use cese_sopg_github_io.TpCorregido.Writer.{fifo_name}
use text.Mathlib.Text.{◌==◌ as str_eq}

-- A file that is open for writing. Nothing truncates it: `open` is called with O_WRONLY alone.
pub record File : Type 0 where
  pub content : Bytes
  pub position : ℕ

abbrev pub write_file : File → Bytes → File
write_file f bs = record {
  content = take f.position f.content ++ (bs ++ drop (f.position + length bs) f.content);
  position = f.position + length bs;
}

pub record World : Type 0 where
  pub stdin : List Bytes
  pub fifo : Bytes
  pub log : File
  pub signals : File

-- The descriptors that `open` gives.
abbrev pub fifo_fd : ℕ
fifo_fd = 3

abbrev pub log_fd : ℕ
log_fd = 4

abbrev pub sign_fd : ℕ
sign_fd = 5

abbrev pub opened : Files
opened = record { fifo_fd = fifo_fd; log_fd = log_fd; sign_fd = sign_fd }

abbrev pub enoent : ℕ
enoent = 2

abbrev pub ebadf : ℕ
ebadf = 9

-- An `open` of `path`, where the file there is has the name `name`.
abbrev pub opened_by : String → String → ℕ → Ret ℕ
opened_by path name fd = if str_eq path name then ok fd else fail enoent

-- An `open` of one of the two files of the Reader.
abbrev pub file_opened : String → Ret ℕ
file_opened path =
    if str_eq path file_name_data then ok log_fd else opened_by path file_name_sign sign_fd

abbrev pub writer_os : (c : Call) → World → Reply c × World
writer_os Call.getpid w = (1000, w)
writer_os (Call.printf format args) w = (tt, w)
writer_os (Call.perror msg) w = (tt, w)
writer_os (Call.mknod path node) w = (ok 0, w)
writer_os (Call.open_file path wronly) w = (opened_by path fifo_name fifo_fd, w)
writer_os (Call.close fd) w = (ok 0, w)
writer_os (Call.read fd n) w =
    if fd == stdin_fileno
    then (ok (terminal_bytes n w.stdin), record w { stdin = terminal_rest n w.stdin })
    else (fail ebadf, w)
writer_os (Call.write fd bs) w =
    (ok (length bs), if fd == fifo_fd then record w { fifo = w.fifo ++ bs } else w)
writer_os (Call.sigaction sig handler) w = (ok 0, w)
writer_os c w = (unsupported c, w)

-- An empty FIFO reads as its end, which it is once the Writer has closed it; while the Writer
-- lives, `read` waits, and the runs of the Reader below start where bytes are there.
abbrev pub reader_os : (c : Call) → World → Reply c × World
reader_os Call.getpid w = (1001, w)
reader_os (Call.printf format args) w = (tt, w)
reader_os (Call.perror msg) w = (tt, w)
reader_os (Call.mknod path node) w = (ok 0, w)
reader_os (Call.open_file path rdonly) w = (opened_by path fifo_name fifo_fd, w)
reader_os (Call.open_file path wronly) w = (file_opened path, w)
reader_os (Call.close fd) w = (ok 0, w)
reader_os (Call.read fd n) w =
    if fd == fifo_fd
    then (ok (take n w.fifo), record w { fifo = drop n w.fifo })
    else (fail ebadf, w)
reader_os (Call.write fd bs) w = (
  ok (length bs),
  if fd == log_fd
      then record w { log = write_file w.log bs }
      else if fd == sign_fd
      then record w { signals = write_file w.signals bs }
      else w,
)
reader_os (Call.sigaction sig handler) w = (ok 0, w)
reader_os c w = (unsupported c, w)
