-- ===== src/NamedFifo/Kernel.antt =====
-- The FIFO as one program sees it while the other waits: the Writer while the Reader has it open, and the
-- Reader when the Writer has ended.
use cese_sopg_github_io.Common.{
  ℕ, ◌==◌, if◌then◌else◌, ◌-◌, true, List, [], ◌∷◌, ◌++◌, length, take, drop,
}
use cese_sopg_github_io.Memory.{Bytes}
use cese_sopg_github_io.Posix.{Call, Reply, fail, ok, unsupported}
use cese_sopg_github_io.NamedFifo.Writer.{fifo_name}
use text.Mathlib.Text.{◌==◌ as str_eq}
use cese_sopg_github_io.Posix.Terminal.{Shown, next_line, terminal_rest}

-- The lines to be typed, what is in the FIFO, and what the running program has shown.
pub record World : Type 0 where
  pub typed : List Bytes
  pub fifo : Bytes
  pub screen : List Shown

abbrev enoent : ℕ
enoent = 2

abbrev ebadf : ℕ
ebadf = 9

abbrev pub fifo_os : (c : Call) → World → Reply c × World
fifo_os (Call.mknod path node) w = (ok 0, w)
fifo_os (Call.open_file path flags) w = (if str_eq path fifo_name then ok 3 else fail enoent, w)
fifo_os (Call.fgets size) w =
    (next_line size w.typed, record w { typed = terminal_rest (size - 1) w.typed })
fifo_os Call.feof w = (true, w)
fifo_os (Call.write fd bs) w =
    if fd == 3 then (ok (length bs), record w { fifo = w.fifo ++ bs }) else (fail ebadf, w)
fifo_os (Call.read fd n) w =
    if fd == 3 then (ok (take n w.fifo), record w { fifo = drop n w.fifo }) else (fail ebadf, w)
fifo_os (Call.printf format args) w =
    (tt, record w { screen = w.screen ++ ((record { format = format; args = args }) ∷ []) })
fifo_os (Call.perror msg) w = (tt, w)
fifo_os c w = (unsupported c, w)
