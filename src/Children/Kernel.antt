-- ===== src/Children/Kernel.antt =====
-- A process whose children end: the signal that tells it comes at the beginning of a call that waits.
use cese_sopg_github_io.Common.{ℕ, zero, suc, ◌+◌, Option, none, some, List, [], ◌∷◌, ◌++◌}
use cese_sopg_github_io.Posix.{Call, Reply, Ret, fail, ok, eintr, unsupported}

-- For each signal that is still to come, how many children have ended since the one before; how many wait to be
-- taken; the handler's static variable; and the calls that have printed, in their order.
pub record World : Type 0 where
  pub signals : List ℕ
  pub ended : ℕ
  pub x : ℕ
  pub shown : List Call

abbrev pub show : Call → World → World
show c w = record w { shown = w.shown ++ (c ∷ []) }

abbrev taken : ℕ → World → Ret ℕ × World
taken zero w = (ok 0, w)
taken (suc ended) w = (ok 1001, record w { ended = ended })

abbrev pub child_os : (c : Call) → World → Reply c × World
child_os Call.getpid w = (1000, w)
child_os (Call.printf format args) w = (tt, show (Call.printf format args) w)
child_os (Call.perror msg) w = (tt, show (Call.perror msg) w)
child_os Call.waitpid_any w = taken w.ended w
child_os (Call.sigaction sig handler) w = (ok 0, w)
child_os Call.fork w = (ok 1001, w)
child_os c w = (unsupported c, w)

abbrev signalled : {A : Type 0} → A → List ℕ → World → Option (A × World)
signalled answer [] w = none
signalled answer (n ∷ signals) w =
    some (answer, record w { signals = signals; ended = w.ended + n })

-- `sleep` has all its seconds left.
abbrev pub interrupted : (c : Call) → World → Option (Reply c × World)
interrupted (Call.read fd count) w = signalled (fail eintr) w.signals w
interrupted (Call.sleep seconds) w = signalled seconds w.signals w
interrupted Call.pause w = signalled (fail eintr) w.signals w
interrupted c w = none
