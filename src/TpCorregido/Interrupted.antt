-- ===== src/TpCorregido/Interrupted.antt =====
-- material-clases/TP_Corregido/writer.c: the loop, with SIGUSR1 and SIGUSR2 at any time.
pub mod Emits
pub mod Whole
use cese_sopg_github_io.Common.{ℕ, ◌+◌, Option, none, some, List, [], ◌∷◌, ◌++◌}
use cese_sopg_github_io.Memory.{Bytes}
use cese_sopg_github_io.Posix.{Signal, sigusr1, sigusr2, Prog}
use cese_sopg_github_io.TpCorregido.Protocol.{data_frame, sign_frame}
use cese_sopg_github_io.TpCorregido.Writer

-- What the Writer sends: the frame of a text, or that of a signal.
pub data Sent : Type 0 where
  text : Bytes → Sent
  mark : Signal → Sent

abbrev pub frame : Sent → Bytes
frame (text t) = data_frame t
frame (mark sig) = sign_frame sig

abbrev pub all_frames : List Sent → Bytes
all_frames [] = []
all_frames (s ∷ ss) = frame s ++ all_frames ss

abbrev pub texts : List Sent → List Bytes
texts [] = []
texts (text t ∷ ss) = t ∷ texts ss
texts (mark sig ∷ ss) = texts ss

abbrev pub same_signal : Signal → Signal → ℕ
same_signal sigusr1 sigusr1 = 1
same_signal sigusr2 sigusr2 = 1
same_signal _ _ = 0

-- How often a signal is among what was sent, and in a schedule.
abbrev pub marks : Signal → List Sent → ℕ
marks sig [] = 0
marks sig (text t ∷ ss) = marks sig ss
marks sig (mark s ∷ ss) = same_signal sig s + marks sig ss

abbrev pub deliveries : Signal → List (Option Signal) → ℕ
deliveries sig [] = 0
deliveries sig (none ∷ es) = deliveries sig es
deliveries sig (some s ∷ es) = same_signal sig s + deliveries sig es

-- No other signals than the two that the loop sends are among what was sent.
abbrev pub UserMarks : List Sent → Type 0
UserMarks [] = Unit
UserMarks (text t ∷ ss) = UserMarks ss
UserMarks (mark sigusr1 ∷ ss) = UserMarks ss
UserMarks (mark sigusr2 ∷ ss) = UserMarks ss
UserMarks (mark sig ∷ ss) = ⊥

-- The handlers that the Writer has installed, with its `fifo_fd`.
abbrev pub handler : Bytes → Signal → Prog (Unit {0})
handler rest sigusr1 = Writer.sigusr_handler rest 3 sigusr1
handler rest sigusr2 = Writer.sigusr_handler rest 3 sigusr2
handler rest sig = Writer.sig_handler sig

-- A schedule with no other signals.
abbrev pub UserSignals : List (Option Signal) → Type 0
UserSignals [] = Unit
UserSignals (none ∷ es) = UserSignals es
UserSignals (some sigusr1 ∷ es) = UserSignals es
UserSignals (some sigusr2 ∷ es) = UserSignals es
UserSignals (some sig ∷ es) = ⊥
