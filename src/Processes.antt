-- ===== src/Processes.antt =====
-- Two processes of one machine that share a channel, such as the two ends of a FIFO or of a socket, under
-- every order in which the machine may run them. The code that runs so is in the modules that use this one.
pub mod Laws
pub mod Orders
pub mod Schedules
pub mod Connection
pub mod Sockets
pub mod Accepting
pub mod Closing
use cese_sopg_github_io.Common.{◌≡◌, Option, none, some, ◌⊎◌}
use mathlib.Core.Option
use cese_sopg_github_io.Posix.{Call, Reply, Prog, done, exit, fault, call}

-- The kernel as one process sees it: from the process's own part of the state and the shared one, the answer
-- of a call and both parts behind it. `none` means that the call waits.
abbrev pub Kernel : Type 0 → Type 0 → Type 0
Kernel L C = (c : Call) → L → C → Option (Reply c × L × C)

-- The calls that stay inside a process, by its own part alone; `none` where a call is not of this kind.
abbrev pub Inner : Type 0 → Type 0
Inner L = (c : Call) → L → Option (Reply c × L)

-- A kernel in two parts: the calls that stay inside the process, and the others.
abbrev pub with_inner : {L C : Type 0} → Inner L → Kernel L C → Kernel L C
with_inner inner outer c l m = elim (inner c l) [
  | none ↦ outer c l m
  | some (a, l') ↦ some (a, l', m)
]

-- A process run as far as it goes without a call that leaves it.
abbrev pub settle : {L : Type 0} → Inner L → Prog (Unit {0}) → L → Prog (Unit {0}) × L
settle inner (done a) l = (done a, l)
settle inner (exit n) l = (exit n, l)
settle inner fault l = (fault, l)
settle inner (call c k) l = elim (inner c l) [
  | none ↦ (call c k, l)
  | some (a, l') ↦ settle inner (k a) l'
]

-- The next call of a process, if there is one and it need not wait.
abbrev pub advance :
    {L C : Type 0} → Kernel L C → Prog (Unit {0}) → L → C → Option (Prog (Unit {0}) × L × C)
advance os (done a) l m = none
advance os (exit n) l m = none
advance os fault l m = none
advance os (call c k) l m = Option.map (λ (a, l', m'). (k a, l', m')) (os c l m)

abbrev pub CanMove : {A : Type 0} → Option A → Type 0
CanMove {A} o = (a : A) × (o ≡ some a)

module _ {L R C : Type 0} (left : Kernel L C) (right : Kernel R C) where
  -- Two programs with their own parts and the shared one, from where every order of calls comes to an end: as
  -- long as a process can move the machine goes on with either one that can, and where none can any more
  -- `Final` holds.
  pub data Ends (Final : Prog (Unit {0}) → L → Prog (Unit {0}) → R → C → Type 0)
      : Prog (Unit {0}) → L → Prog (Unit {0}) → R → C → Type 0 where
    halted :
        {p : Prog (Unit {0})} {l : L} {q : Prog (Unit {0})} {r : R} {m : C}
        → advance left p l m ≡ none
        → advance right q r m ≡ none
        → Final p l q r m
        → Ends Final p l q r m
    moves :
        {p : Prog (Unit {0})} {l : L} {q : Prog (Unit {0})} {r : R} {m : C}
        → CanMove (advance left p l m) ⊎ CanMove (advance right q r m)
        → ((p' : Prog (Unit {0})) (l' : L) (m' : C)
            → advance left p l m ≡ some (p', l', m')
            → Ends Final p' l' q r m')
        → ((q' : Prog (Unit {0})) (r' : R) (m' : C)
            → advance right q r m ≡ some (q', r', m')
            → Ends Final p l q' r' m')
        → Ends Final p l q r m
