-- ===== src/Posix/Laws.antt =====
-- The monad laws of programs, and how `run` goes through a sequence.
use cese_sopg_github_io.Common.{◌≡◌, refl, ap, fun_ext}
use cese_sopg_github_io.Posix.Defs.{
  Call, Reply, Prog, done, exit, fault, call, ◌>>=◌, Outcome, running, exited, crashed, run,
}

pub >>=_assoc :
    {A B C : Type 0} (m : Prog A) (f : A → Prog B) (g : B → Prog C)
    → ((m >>= f) >>= g) ≡ (m >>= λ a. f a >>= g)
>>=_assoc (done a) f g = refl
>>=_assoc (exit n) f g = refl
>>=_assoc fault f g = refl
>>=_assoc (call c k) f g = ap (call c) (fun_ext (λ r. >>=_assoc (k r) f g))

pub call-cong :
    {A : Type 0} (c : Call) {k k' : Reply c → Prog A}
    → ((r : Reply c) → k r ≡ k' r)
    → call c k ≡ call c k'
call-cong c h = ap (call c) (fun_ext h)

-- A sequence runs as its first part, then as the rest from where that ended.
abbrev pub resume :
    {S A B : Type 0} → ((c : Call) → S → Reply c × S) → (A → Prog B) → Outcome A × S → Outcome B × S
resume os f (running a, s) = run os (f a) s
resume os f (exited n, s) = (exited n, s)
resume os f (crashed, s) = (crashed, s)

pub run->>= :
    {S A B : Type 0} (os : (c : Call) → S → Reply c × S) (p : Prog A) (f : A → Prog B) (s : S)
    → run os (p >>= f) s ≡ resume os f (run os p s)
unfolding run
run->>= os (done a) f s = refl
run->>= os (exit n) f s = refl
run->>= os fault f s = refl
run->>= os (call c k) f s = run->>= os (k (os c s).0) f (os c s).1
