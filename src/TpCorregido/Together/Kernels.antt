-- ===== src/TpCorregido/Together/Kernels.antt =====
-- The kernel as each of the two programs sees it while both run: its own files or terminal, and the FIFO,
-- as POSIX documents it.
use cese_sopg_github_io.Common.{
  ℕ, ◌+◌, Option, none, some, List, [], ◌∷◌, ◌++◌, if◌then◌else◌, ◌==◌, leb, length, take, drop,
}
use cese_sopg_github_io.Memory.{Bytes}
use cese_sopg_github_io.Posix.{Call, rdonly, wronly, Reply, unsupported, fail, ok, eexist}
use cese_sopg_github_io.Processes.{Kernel, Inner, with_inner}
use cese_sopg_github_io.Posix.{stdin_fileno}
use cese_sopg_github_io.TpCorregido.Writer.{fifo_name}
use cese_sopg_github_io.TpCorregido.Kernel.{
  File, write_file, fifo_fd, log_fd, sign_fd, terminal_bytes, terminal_rest, enoent, ebadf,
  file_opened,
}
use text.Mathlib.Text.{◌==◌ as str_eq}

-- Whether one end of the FIFO is open.
pub data Users : Type 0 where
  not_yet present gone : Users

pub record Fifo : Type 0 where
  pub bytes : Bytes
  pub writers : Users
  pub readers : Users

-- The bytes that the FIFO holds at most.
abbrev pub capacity : ℕ
capacity = 65536

abbrev epipe : ℕ
epipe = 32

-- The FIFO's name exists, as it does from the second run on. The Writer's own part is its terminal.
abbrev pub writer_inner : Inner (List Bytes)
writer_inner Call.getpid l = some (1000, l)
writer_inner (Call.printf format args) l = some (tt, l)
writer_inner (Call.perror msg) l = some (tt, l)
writer_inner (Call.mknod path node) l = some (fail eexist, l)
writer_inner (Call.read fd n) l =
    some
      (if fd == stdin_fileno then (ok (terminal_bytes n l), terminal_rest n l) else (fail ebadf, l))
writer_inner (Call.write fd bs) l = if fd == fifo_fd then none else some (ok (length bs), l)
writer_inner (Call.sigaction sig handler) l = some (ok 0, l)
writer_inner c l = none

-- A `write` of at most PIPE_BUF bytes goes in as a whole, and waits until the FIFO has room for it.
abbrev pub push :
    Users → Bytes → List Bytes → Fifo → Option (Reply (Call.write fifo_fd []) × List Bytes × Fifo)
push present bs l m =
    if leb (length m.bytes + length bs) capacity
    then some (ok (length bs), l, record m { bytes = m.bytes ++ bs })
    else none
push _ bs l m = some (fail epipe, l, m)

-- The Writer's `open` waits for the Reader's.
abbrev pub open_end :
    Users → List Bytes → Fifo → Option (Reply (Call.close fifo_fd) × List Bytes × Fifo)
open_end present l m = some (ok fifo_fd, l, record m { writers = present })
open_end _ l m = none

abbrev pub writer_outer : Kernel (List Bytes) Fifo
writer_outer (Call.open_file path wronly) l m =
    if str_eq path fifo_name then open_end m.readers l m else some (fail enoent, l, m)
writer_outer (Call.close fd) l m =
    some (if fd == fifo_fd then (ok 0, l, record m { writers = gone }) else (fail ebadf, l, m))
writer_outer (Call.write fd bs) l m = push m.readers bs l m
writer_outer c l m = some (unsupported c, l, m)

-- The Reader's own part: the two files.
pub record Logs : Type 0 where
  pub log : File
  pub signals : File

abbrev pub reader_inner : Inner Logs
reader_inner Call.getpid l = some (1001, l)
reader_inner (Call.printf format args) l = some (tt, l)
reader_inner (Call.perror msg) l = some (tt, l)
reader_inner (Call.mknod path node) l = some (fail eexist, l)
reader_inner (Call.open_file path wronly) l = some (file_opened path, l)
reader_inner (Call.write fd bs) l = some (
  ok (length bs),
  if fd == log_fd
      then record l { log = write_file l.log bs }
      else if fd == sign_fd
      then record l { signals = write_file l.signals bs }
      else l,
)
reader_inner (Call.sigaction sig handler) l = some (ok 0, l)
reader_inner c l = none

-- `read` from the FIFO: what is there, at most `n` bytes; where nothing is there it waits, unless the
-- writers are gone.
abbrev pub pull :
    Users → Bytes → ℕ → Logs → Fifo → Option (Reply (Call.read fifo_fd 0) × Logs × Fifo)
pull writers (b ∷ bs) n l m = some (ok (take n (b ∷ bs)), l, record m { bytes = drop n (b ∷ bs) })
pull gone [] n l m = some (ok [], l, m)
pull _ [] n l m = none

-- The Reader's `open` of the FIFO returns at once here, and its first `read` waits for the Writer instead.
abbrev pub reader_outer : Kernel Logs Fifo
reader_outer (Call.open_file path rdonly) l m = some (
    if str_eq path fifo_name
    then (ok fifo_fd, l, record m { readers = present })
    else (fail enoent, l, m))
reader_outer (Call.close fd) l m =
    some (if fd == fifo_fd then (ok 0, l, record m { readers = gone }) else (fail ebadf, l, m))
reader_outer (Call.read fd n) l m =
    if fd == fifo_fd then pull m.writers m.bytes n l m else some (fail ebadf, l, m)
reader_outer c l m = some (unsupported c, l, m)

abbrev pub writer_side : Kernel (List Bytes) Fifo
writer_side = with_inner writer_inner writer_outer

abbrev pub reader_side : Kernel Logs Fifo
reader_side = with_inner reader_inner reader_outer
