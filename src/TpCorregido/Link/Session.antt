-- ===== src/TpCorregido/Link/Session.antt =====
-- A session of the Writer and the Reader: lines are typed and signals arrive while the Writer waits in
-- `read` (which SA_RESTART resumes), and the Reader reads each message before the next event.
use cese_sopg_github_io.Common.{◌≤◌, ◌≢◌, List, [], ◌∷◌, length}
use cese_sopg_github_io.Memory.{Bytes}
use cese_sopg_github_io.Posix.{Signal, run}
use cese_sopg_github_io.TpCorregido.Kernel.{World, File, write_file, writer_os, reader_os, opened}
use cese_sopg_github_io.TpCorregido.Protocol.{digit}
use cese_sopg_github_io.TpCorregido.Writer
use cese_sopg_github_io.TpCorregido.Reader
use cese_sopg_github_io.TpCorregido.Link.Lockstep.{turn}

pub data Event : Type 0 where
  line_typed : (line : Bytes) → Event
  signal_sent : Signal → Event

abbrev pub lines_of : List Event → List Bytes
lines_of [] = []
lines_of (line_typed l ∷ es) = l ∷ lines_of es
lines_of (signal_sent sig ∷ es) = lines_of es

abbrev pub signals_of : List Event → List Signal
signals_of [] = []
signals_of (line_typed l ∷ es) = signals_of es
signals_of (signal_sent sig ∷ es) = sig ∷ signals_of es

-- signals.txt with the digit of each signal on a line.
abbrev pub sign_lines : File → List Signal → File
sign_lines f [] = f
sign_lines f (sig ∷ sigs) = sign_lines (write_file f (digit sig ∷ b'\n' ∷ [])) sigs

-- Each typed line is not empty and fits one `read`.
abbrev pub ShortEvents : List Event → Type 0
ShortEvents [] = Unit
ShortEvents (line_typed l ∷ es) = (l ≢ []) × (length l ≤ 20) × ShortEvents es
ShortEvents (signal_sent sig ∷ es) = ShortEvents es

-- One event, and a pass of the Reader.
abbrev pub event : Bytes → Bytes → World → Event → World
event slack slack' w (line_typed l) = turn slack slack' (record w { stdin = l ∷ w.stdin })
event slack slack' w (signal_sent sig) =
    (run reader_os (Reader.round slack' opened)
      (run writer_os (Writer.sigusr_handler slack 3 sig) w).1).1

pub session : Bytes → Bytes → World → List Event → World
session slack slack' w [] = w
session slack slack' w (e ∷ es) = session slack slack' (event slack slack' w e) es
