-- ===== src/TimedWait/Alarmed.antt =====
-- material-clases/clase7/ejemplo-sem/sem.c: a kernel with one semaphore, one alarm and a clock in seconds. No
-- time passes but in `sem_timedwait`.
use cese_sopg_github_io.Common.{
  ℕ, zero, suc, ◌+◌, ◌-◌, Option, none, some, List, [], ◌∷◌, ◌++◌, if◌then◌else◌, ltb, length,
}
use cese_sopg_github_io.Posix.{
  Call, Reply, fail, ok, Prog, Outcome, run, eintr, etimedout, unsupported,
}
use cese_sopg_github_io.Posix.Blocking.{run_blocking}

-- `shown` holds the calls that print, in their order.
pub record World : Type 0 where
  pub now : ℕ
  pub sem : ℕ
  pub rings_at : Option ℕ
  pub shown : List Call

-- `alarm(0)` takes the alarm back.
abbrev pub ring_after : ℕ → ℕ → Option ℕ
ring_after now zero = none
ring_after now (suc seconds) = some (now + suc seconds)

abbrev pub later : ℕ → ℕ → ℕ
later a b = a + (b - a)

abbrev taken : ℕ → ℕ → World → Reply (Call.sem_timedwait 0) × World
taken deadline zero w = (fail etimedout, record w { now = later w.now deadline })
taken deadline (suc sem) w = (ok 0, record w { sem = sem })

abbrev pub show : Call → World → World
show c w = record w { shown = w.shown ++ (c ∷ []) }

abbrev pub sem_os : (c : Call) → World → Reply c × World
sem_os (Call.sem_init value) w = (ok 0, record w { sem = value })
sem_os Call.sem_post w = (ok 0, record w { sem = w.sem + 1 })
sem_os (Call.sem_timedwait deadline) w = taken deadline w.sem w
sem_os (Call.alarm seconds) w = (ok 0, record w { rings_at = ring_after w.now seconds })
sem_os Call.clock_gettime w = (ok w.now, w)
sem_os (Call.sigaction sig h) w = (ok 0, w)
sem_os (Call.printf format args) w = (tt, show (Call.printf format args) w)
sem_os (Call.perror msg) w = (tt, show (Call.perror msg) w)
sem_os (Call.write fd bs) w = (ok (length bs), show (Call.write fd bs) w)
sem_os c w = (unsupported c, w)

-- The time at which the alarm rings in a wait of the semaphore that begins with the given value.
abbrev rings_before : ℕ → ℕ → Option ℕ → Option ℕ
rings_before deadline (suc sem) at = none
rings_before deadline zero none = none
rings_before deadline zero (some t) = if ltb t deadline then some t else none

abbrev pub rung : World → Option ℕ → Option (Reply (Call.sem_timedwait 0) × World)
rung w none = none
rung w (some t) = some (fail eintr, record w { now = later w.now t; rings_at = none })

-- The alarm rings in the call, which it interrupts.
abbrev pub interrupted : (c : Call) → World → Option (Reply c × World)
interrupted (Call.sem_timedwait deadline) w = rung w (rings_before deadline w.sem w.rings_at)
interrupted c w = none

-- A program and the handler of its alarm.
abbrev pub run_alarmed : {A : Type 0} → Prog (Unit {0}) → Prog A → World → Outcome A × World
run_alarmed handler = run_blocking sem_os interrupted (run sem_os handler)
