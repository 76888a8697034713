-- ===== src/Posix/Blocking.antt =====
-- A program whose calls that wait a signal interrupts: the handler runs, and the call answers behind it.
use cese_sopg_github_io.Common.{◌≡◌, ap, ◌∙◌, Option, none, some}
use cese_sopg_github_io.Posix.Defs.{
  Call, Reply, Prog, done, exit, fault, call, Outcome, running, exited, crashed,
}

-- The rest of a run behind the handler.
abbrev behind : {S A : Type 0} → (S → Outcome A × S) → Outcome (Unit {0}) × S → Outcome A × S
behind rest (running x, w) = rest w
behind rest (exited n, w) = (exited n, w)
behind rest (crashed, w) = (crashed, w)

module _ {S : Type 0} (os : (c : Call) → S → Reply c × S)
    (interrupted : (c : Call) → S → Option (Reply c × S))
    (handle : S → Outcome (Unit {0}) × S) where
  -- The rest of a run behind a call, by its answer if no signal comes in it.
  abbrev answered :
      {A B : Type 0} → (B → S → Outcome A × S) → B × S → Option (B × S) → Outcome A × S
  answered rest (r, w) none = rest r w
  answered rest through (some (r, w)) = behind (rest r) (handle w)

  -- `interrupted` says in which calls a signal comes, with the answer and the state as the handler begins, and
  -- `handle` is the run of the handler.
  unfoldable pub run_blocking : {A : Type 0} → Prog A → S → Outcome A × S
  run_blocking (done a) w = (running a, w)
  run_blocking (exit n) w = (exited n, w)
  run_blocking fault w = (crashed, w)
  run_blocking (call c k) w = answered (λ r w'. run_blocking (k r) w') (os c w) (interrupted c w)

  module _ {A : Type 0} where
    pub run_blocking-interrupted :
        (c : Call) (k : Reply c → Prog A) (w w' w'' : S) (r : Reply c)
        → interrupted c w ≡ some (r, w')
        → handle w' ≡ (running tt, w'')
        → run_blocking (call c k) w ≡ run_blocking (k r) w''
    unfolding run_blocking
    run_blocking-interrupted c k w w' w'' r e e' =
        ap (answered (λ x v. run_blocking (k x) v) (os c w)) e ∙ ap (behind (run_blocking (k r))) e'

    pub run_blocking-through :
        (c : Call) (k : Reply c → Prog A) (w : S)
        → interrupted c w ≡ none
        → run_blocking (call c k) w ≡ run_blocking (k (os c w).0) (os c w).1
    unfolding run_blocking
    run_blocking-through c k w e = ap (answered (λ x v. run_blocking (k x) v) (os c w)) e
