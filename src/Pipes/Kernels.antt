-- ===== src/Pipes/Kernels.antt =====
-- Two pipes between a process and its child. The first has the descriptors 3 and 4, the second 5 and 6, of
-- which the first of each is its read end, and each process has those of them open that it did not close.
use cese_sopg_github_io.Common.{
  ℕ, Bool, true, false, Option, none, some, List, [], ◌∷◌, ◌++◌, length, take, drop, ◌==◌, ◌||◌,
  if◌then◌else◌,
}
use cese_sopg_github_io.Memory.{Bytes}
use cese_sopg_github_io.Posix.{Call, Ret, fail, ok, unsupported}
use cese_sopg_github_io.Posix.Terminal.{Shown}
use cese_sopg_github_io.Processes.{Kernel, Inner, with_inner}

-- What is in the pipes, and whether the child has ended.
pub record Between : Type 0 where
  pub to_parent : Bytes
  pub to_child : Bytes
  pub ended : Bool

-- What a process has shown, and the descriptors of the pipes it has open.
pub record Own : Type 0 where
  pub shown : List Shown
  pub open_ends : List ℕ

abbrev has : ℕ → List ℕ → Bool
has fd [] = false
has fd (e ∷ ends) = (fd == e) || has fd ends

abbrev without : ℕ → List ℕ → List ℕ
without fd [] = []
without fd (e ∷ ends) = if fd == e then without fd ends else e ∷ without fd ends

abbrev ebadf : ℕ
ebadf = 9

-- A descriptor that is not open is refused.
abbrev closed : ℕ → Own → Ret ℕ × Own
closed fd l =
    if has fd l.open_ends
    then (ok 0, record l { open_ends = without fd l.open_ends })
    else (fail ebadf, l)

-- What a process prints, what it closes and its sleeps.
abbrev pub inner : ℕ → Inner Own
inner pid Call.getpid l = some (pid, l)
inner pid (Call.printf format args) l =
    some (tt, record l { shown = l.shown ++ ((record { format = format; args = args }) ∷ []) })
inner pid (Call.close fd) l = some (closed fd l)
inner pid (Call.sleep seconds) l = some (0, l)
inner pid c l = none

-- A write by an open write end goes into its pipe, and any other is refused.
abbrev put : ℕ → Bytes → Between → Option Between
put fd bs m =
    if fd == 4
    then some (record m { to_parent = m.to_parent ++ bs })
    else if fd == 6
    then some (record m { to_child = m.to_child ++ bs })
    else none

abbrev written : Option Between → ℕ → Own → Between → Option (Ret ℕ × Own × Between)
written (some m') n l m = some (ok n, l, m')
written none n l m = some (fail ebadf, l, m)

-- A `read` waits while the pipe is empty; no process ends or closes its write end before its last write.
abbrev pulled : (Bytes → Between) → ℕ → Own → Bytes → Option (Ret Bytes × Own × Between)
pulled rest n l [] = none
pulled rest n l (b ∷ bs) = some (ok (take n (b ∷ bs)), l, rest (drop n (b ∷ bs)))

abbrev got : ℕ → ℕ → Own → Between → Option (Ret Bytes × Own × Between)
got fd n l m =
    if fd == 3
    then pulled (λ bs. record m { to_parent = bs }) n l m.to_parent
    else if fd == 5
    then pulled (λ bs. record m { to_child = bs }) n l m.to_child
    else some (fail ebadf, l, m)

-- `wait` answers when the child has ended.
abbrev awaited : Bool → Own → Between → Option (Ret ℕ × Own × Between)
awaited true l m = some (ok 1001, l, m)
awaited false l m = none

-- The pipes, for either process.
abbrev piped : Kernel Own Between
piped (Call.write fd bs) l m =
    written (if has fd l.open_ends then put fd bs m else none) (length bs) l m
piped (Call.read fd n) l m = if has fd l.open_ends then got fd n l m else some (fail ebadf, l, m)
piped c l m = some (unsupported c, l, m)

abbrev pub child_outer : Kernel Own Between
child_outer (Call.exit_group status) l m = some (ok 0, l, record m { ended = true })
child_outer c l m = piped c l m

abbrev pub parent_outer : Kernel Own Between
parent_outer Call.wait l m = awaited m.ended l m
parent_outer c l m = piped c l m

abbrev pub child_side : Kernel Own Between
child_side = with_inner (inner 1001) child_outer

abbrev pub parent_side : Kernel Own Between
parent_side = with_inner (inner 1000) parent_outer
