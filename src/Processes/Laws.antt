-- ===== src/Processes/Laws.antt =====
-- When one order of the calls of two processes stands for all of them.
use cese_sopg_github_io.Common.{◌≡◌, refl, ap, subst, Option, none, some, inl, inr}
use mathlib.Core.Option
use cese_sopg_github_io.Posix.{Call, Reply, Prog, done, exit, fault, call}
use cese_sopg_github_io.Processes.{Kernel, advance, Ends, halted, moves}

module _ {L R C : Type 0} {left : Kernel L C} {right : Kernel R C}
    {Final : Prog (Unit {0}) → L → Prog (Unit {0}) → R → C → Type 0} where
  -- The two processes change places.
  pub swapped :
      {p : Prog (Unit {0})} {l : L} {q : Prog (Unit {0})} {r : R} {m : C}
      → Ends left right Final p l q r m
      → Ends right left (λ q r p l m. Final p l q r m) q r p l m
  swapped (halted a b f) = halted b a f
  swapped (moves (inl a) f g) =
      moves (inr a) (λ q' r' m' h. swapped (g q' r' m' h)) (λ p' l' m' h. swapped (f p' l' m' h))
  swapped (moves (inr a) f g) =
      moves (inl a) (λ q' r' m' h. swapped (g q' r' m' h)) (λ p' l' m' h. swapped (f p' l' m' h))

module _ {L R C : Type 0} {left : Kernel L C} {right : Kernel R C}
    {Final : Prog (Unit {0}) → L → Prog (Unit {0}) → R → C → Type 0} where
  pub same :
      {p p' : Prog (Unit {0})} {l l' : L} {q : Prog (Unit {0})} {r : R} {m m' : C}
      → Ends left right Final p l q r m
      → p ≡ p'
      → l ≡ l'
      → m ≡ m'
      → Ends left right Final p' l' q r m'
  same x e e' e'' = rw (← e, ← e', ← e'') x

  -- A process has at most one next call.
  pub determined :
      {next : Option (Prog (Unit {0}) × L × C)} {p' : Prog (Unit {0})} {l' : L}
      {q : Prog (Unit {0})} {r : R} {m' : C}
      → next ≡ some (p', l', m')
      → Ends left right Final p' l' q r m'
      → (p'' : Prog (Unit {0})) (l'' : L) (m'' : C) → next ≡ some (p'', l'', m'')
      → Ends left right Final p'' l'' q r m''
  determined e x p'' l'' m'' move = same x (cc) (cc) (cc)

-- A call of the left process that can be made where `P` holds, and that the calls of the right process
-- neither prevent nor notice.
pub record Independent {L R C : Type 0} (left : Kernel L C) (right : Kernel R C) (c : Call)
    (l l' : L) (a : Reply c) (P : C → Type 0) (effect : C → C) : Type 0 where
  pub now : (m : C) → P m → left c l m ≡ some (a, l', effect m)
  pub kept :
      (d : Call) (r r' : R) (b : Reply d) (m m' : C) → P m → right d r m ≡ some (b, r', m') → P m'
  pub unnoticed :
      (d : Call) (r r' : R) (b : Reply d) (m m' : C)
      → P m
      → right d r m ≡ some (b, r', m')
      → right d r (effect m) ≡ some (b, r', effect m')

pub came_from :
    {A B : Type 0} (f : A → B) (o : Option A) {b : B}
    → Option.map f o ≡ some b
    → (a : A) × (o ≡ some a) × (some (f a) ≡ some b)
came_from f none h = cc
came_from f (some a) h = (a, refl, h)

module _ {L R C : Type 0} {left : Kernel L C} {right : Kernel R C} {c : Call} {l l' : L}
    {a : Reply c} {P : C → Type 0} {effect : C → C}
    (free : Independent left right c l l' a P effect) where
  made :
      (k : Reply c → Prog (Unit {0})) (m : C)
      → P m
      → advance left (call c k) l m ≡ some (k a, l', effect m)
  made k m h = ap (Option.map (λ (s : Reply c × L × C). (k s.0, s.1, s.2))) (free.now m h)

  other :
      (q : Prog (Unit {0})) (r : R) (m : C) {q' : Prog (Unit {0})} {r' : R} {m' : C}
      → P m
      → advance right q r m ≡ some (q', r', m')
      → P m' × (advance right q r (effect m) ≡ some (q', r', effect m'))
  other (done x) r m h e = cc
  other (exit n) r m h e = cc
  other fault r m h e = cc
  other (call d j) r m {q'} {r'} {m'} h e =
      let ((b, s, n), e', same) =
        came_from (λ (s : Reply d × R × C). (j s.0, s.1, s.2)) (right d r m) e in
      let same_n : n ≡ m' = cc in
      (subst P same_n (free.kept d r s b m n h e'), rw (free.unnoticed d r s b m n h e') (cc))

  module _ {Final : Prog (Unit {0}) → L → Prog (Unit {0}) → R → C → Type 0} where
    -- Where such a call was made first, nothing is lost.
    pub first :
        (k : Reply c → Prog (Unit {0})) {p : Prog (Unit {0})} {own : L} {q : Prog (Unit {0})}
        {r : R} {m m' : C}
        → Ends left right Final p own q r m'
        → p ≡ k a
        → own ≡ l'
        → m' ≡ effect m
        → P m
        → Ends left right Final (call c k) l q r m
    first k {q} {r} {m} (halted stuck stuck' final) e e' e'' h =
        moves (inl (_, made k m h))
          (determined (made k m h) (same (halted stuck stuck' final) e e' e''))
          (λ q' s n move. absurd (let (_, again) = other q r m h move in cc))
    first k {q} {r} {m} (moves can f g) e e' e'' h =
        moves (inl (_, made k m h)) (determined (made k m h) (same (moves can f g) e e' e''))
          (λ q' s n move.
            let (still, again) = other q r m h move in
            first k (g q' s (effect n) (rw e'' again)) e e' refl still)
