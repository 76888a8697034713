-- ===== src/TimedWait/Waits.antt =====
-- material-clases/clase7/ejemplo-sem/sem.c: whether the alarm or the time limit comes first.
use cese_sopg_github_io.Common.{
  ℕ, ◌+◌, Option, none, String, [], ◌∷◌, ltb, ◌&&◌, ◌≢◌, if◌then◌else◌,
}
use cese_sopg_github_io.Memory.{Bytes, codes}
use cese_sopg_github_io.Posix.{Call, str, Outcome, exited}
use cese_sopg_github_io.TimedWait.Alarmed.{World, ring_after}

abbrev pub start : ℕ → World
start t = record { now = t; sem = 0; rings_at = none; shown = [] }

abbrev pub about : Call
about = Call.printf "%s() about to call sem_timedwait()\n" (str (codes "main") ∷ [])

abbrev pub posted_by_handler : Call
posted_by_handler = Call.write 1 (codes "sem_post() from handler\n")

abbrev pub said : String → Call
said text = Call.printf text []

-- The world with the alarm set, as the wait begins.
abbrev waiting : ℕ → Option ℕ → World
waiting t at = record { now = t; sem = 0; rings_at = at; shown = about ∷ [] }

abbrev pub succeeded : ℕ → World
succeeded t = record {
  now = t;
  sem = 0;
  rings_at = none;
  shown = about ∷ posted_by_handler ∷ said "sem_timedwait() succeeded\n" ∷ [];
}

abbrev pub timed_out : ℕ → Option ℕ → World
timed_out t at = record {
  now = t;
  sem = 0;
  rings_at = at;
  shown = about ∷ said "sem_timedwait() timed out\n" ∷ [];
}

-- How a run ends that begins at the time `t`, by the two numbers of seconds.
abbrev pub ends : ℕ → ℕ → ℕ → Outcome (Unit {0}) × World
ends t s wait_secs =
    if ltb 0 s && ltb s wait_secs
    then (exited 0, succeeded (t + s))
    else (exited 1, timed_out (t + wait_secs) (ring_after t s))

abbrev pub NoMinus : Bytes → Type 0
NoMinus [] = Unit
NoMinus (b ∷ bs) = (b ≢ b'-') × NoMinus bs
