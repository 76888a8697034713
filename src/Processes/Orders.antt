-- ===== src/Processes/Orders.antt =====
-- The steps by which one order of the calls of two processes is shown to stand for all of them: a call that
-- the other process cannot tell, a call that stays inside, and a call while the other process waits.
use cese_sopg_github_io.Common.{◌≡◌, refl, ap, Option, none, some, inl}
use mathlib.Core.Option
use cese_sopg_github_io.Posix.{Call, Reply, Prog, done, exit, fault, call}
use cese_sopg_github_io.Processes.{Kernel, Inner, with_inner, settle, advance, Ends, moves}
use cese_sopg_github_io.Processes.Laws.{Independent, first, swapped, determined}

never : {A : Type 0} {o : Option A} {a : A} → o ≡ none → o ≡ some a → ⊥
never e e' = cc

module _ {L R C : Type 0} {left : Kernel L C} {right : Kernel R C}
    {Final : Prog (Unit {0}) → L → Prog (Unit {0}) → R → C → Type 0} where
  pub first_left :
      {c : Call} {k : Reply c → Prog (Unit {0})} {l l' : L} {a : Reply c} {P : C → Type 0}
      {effect : C → C} {q : Prog (Unit {0})} {r : R} {m : C}
      → Independent left right c l l' a P effect
      → P m
      → Ends left right Final (k a) l' q r (effect m)
      → Ends left right Final (call c k) l q r m
  first_left {k} free h x = first free k x refl refl refl h

  pub only_left :
      {c : Call} {k : Reply c → Prog (Unit {0})} {l l' : L} {a : Reply c} {q : Prog (Unit {0})}
      {r : R} {m m' : C}
      → left c l m ≡ some (a, l', m')
      → advance right q r m ≡ none
      → Ends left right Final (k a) l' q r m'
      → Ends left right Final (call c k) l q r m
  only_left {c} {k} {l} {l'} {a} {q} {r} {m} {m'} e waits x =
      moves (inl (_, step)) (determined step x) (λ q' s n move. absurd (never waits move))
    where
      step : advance left (call c k) l m ≡ some (k a, l', m')
      step = ap (Option.map (λ (s : Reply c × L × C). (k s.0, s.1, s.2))) e

module _ {L R C : Type 0} (inner : Inner L) (outer : Kernel L C) {right : Kernel R C} where
  stays :
      {c : Call} {a : Reply c} {l l' : L}
      → inner c l ≡ some (a, l')
      → Independent (with_inner inner outer) right c l l' a (λ n. Unit {0}) (λ n. n)
  stays e = record {
    now = λ n _. rw (e, with_inner);
    kept = λ d s s' b n n' _ _. tt;
    unnoticed = λ d s s' b n n' _ move. move;
  }

module _ {L R C : Type 0} (inner : Inner L) (outer : Kernel L C) {right : Kernel R C}
    {Final : Prog (Unit {0}) → L → Prog (Unit {0}) → R → C → Type 0} where
  -- The calls that stay inside the left process may as well be made at once.
  pub settle_left :
      (p : Prog (Unit {0})) (l : L) {q : Prog (Unit {0})} {r : R} {m : C}
      → Ends (with_inner inner outer) right Final (settle inner p l).0 (settle inner p l).1 q r m
      → Ends (with_inner inner outer) right Final p l q r m
  settle_left (done x) l h = h
  settle_left (exit n) l h = h
  settle_left fault l h = h
  settle_left (call c k) l {q} {r} {m} h =
      by_kind (inner c l) refl (λ a l' x. settle_left (k a) l' x) h
    where
      rest : Option (Reply c × L) → Prog (Unit {0}) × L
      rest none = (call c k, l)
      rest (some (a, l')) = settle inner (k a) l'

      by_kind :
          (o : Option (Reply c × L))
          → inner c l ≡ o
          → ((a : Reply c) (l' : L)
              → Ends
                  (with_inner inner outer)
                  right
                  Final
                  (settle inner (k a) l').0
                  (settle inner (k a) l').1
                  q
                  r
                  m
              → Ends (with_inner inner outer) right Final (k a) l' q r m)
          → Ends (with_inner inner outer) right Final (rest o).0 (rest o).1 q r m
          → Ends (with_inner inner outer) right Final (call c k) l q r m
      by_kind none e later x = x
      by_kind (some (a, l')) e later x = first_left (stays inner outer e) tt (later a l' x)

module _ {L R C : Type 0} {left : Kernel L C} {right : Kernel R C}
    {Final : Prog (Unit {0}) → L → Prog (Unit {0}) → R → C → Type 0} where
  pub first_right :
      {c : Call} {k : Reply c → Prog (Unit {0})} {r r' : R} {a : Reply c} {P : C → Type 0}
      {effect : C → C} {p : Prog (Unit {0})} {l : L} {m : C}
      → Independent right left c r r' a P effect
      → P m
      → Ends left right Final p l (k a) r' (effect m)
      → Ends left right Final p l (call c k) r m
  first_right free h x = swapped (first_left free h (swapped x))

  pub only_right :
      {c : Call} {k : Reply c → Prog (Unit {0})} {r r' : R} {a : Reply c} {p : Prog (Unit {0})}
      {l : L} {m m' : C}
      → right c r m ≡ some (a, r', m')
      → advance left p l m ≡ none
      → Ends left right Final p l (k a) r' m'
      → Ends left right Final p l (call c k) r m
  only_right e waits x = swapped (only_left e waits (swapped x))

module _ {L R C : Type 0} {left : Kernel L C} (inner : Inner R) (outer : Kernel R C)
    {Final : Prog (Unit {0}) → L → Prog (Unit {0}) → R → C → Type 0} where
  pub settle_right :
      (q : Prog (Unit {0})) (r : R) {p : Prog (Unit {0})} {l : L} {m : C}
      → Ends left (with_inner inner outer) Final p l (settle inner q r).0 (settle inner q r).1 m
      → Ends left (with_inner inner outer) Final p l q r m
  settle_right q r x = swapped (settle_left inner outer q r (swapped x))

-- A process may be taken for another that makes the same calls.
module _ {L R C : Type 0} {left : Kernel L C} {right : Kernel R C}
    {Final : Prog (Unit {0}) → L → Prog (Unit {0}) → R → C → Type 0} where
  pub as_left :
      {p p' q : Prog (Unit {0})} {l : L} {r : R} {m : C}
      → p ≡ p'
      → Ends left right Final p' l q r m
      → Ends left right Final p l q r m
  as_left e x = rw e x

  pub as_right :
      {p q q' : Prog (Unit {0})} {l : L} {r : R} {m : C}
      → q ≡ q'
      → Ends left right Final p l q' r m
      → Ends left right Final p l q r m
  as_right e x = rw e x

  pub as_settled :
      {s s' : Prog (Unit {0}) × L} {q : Prog (Unit {0})} {r : R} {m : C}
      → s ≡ s'
      → Ends left right Final s'.0 s'.1 q r m
      → Ends left right Final s.0 s.1 q r m
  as_settled e x = rw e x

  pub as_settled_right :
      {p : Prog (Unit {0})} {l : L} {s s' : Prog (Unit {0}) × R} {m : C}
      → s ≡ s'
      → Ends left right Final p l s'.0 s'.1 m
      → Ends left right Final p l s.0 s.1 m
  as_settled_right e x = rw e x
