-- ===== src/Processes/Schedules.antt =====
-- The machine that runs two processes by a schedule, which names the process that makes each call.
use cese_sopg_github_io.Common.{
  ℕ, suc, ◌+◌, ◌<◌, length, arith, refl, subst, ◌≡◌, Bool, true, false, Option, none, some, List,
  [], ◌∷◌, inl, inr,
}
use mathlib.Core.Option
use cese_sopg_github_io.Posix.{Prog}
use cese_sopg_github_io.Processes.Laws.{came_from}
use cese_sopg_github_io.Processes.{Kernel, advance, Ends, halted, moves}

none_before : {A B : Type 0} (f : A → B) (o : Option A) → Option.map f o ≡ none → o ≡ none
none_before f none e = refl
none_before f (some a) e = absurd (cc)

inside_some : {A : Type 0} {a b : A} → some a ≡ some b → a ≡ b
inside_some e = cc

module _ {L R C : Type 0} (left : Kernel L C) (right : Kernel R C) where
  abbrev pub State : Type 0
  State = Prog (Unit {0}) × L × Prog (Unit {0}) × R × C

  -- `true` is the left process.
  abbrev pub step : Bool → State → Option State
  step true (p, l, q, r, m) =
      Option.map (λ (s : Prog (Unit {0}) × L × C). (s.0, s.1, q, r, s.2)) (advance left p l m)
  step false (p, l, q, r, m) =
      Option.map (λ (s : Prog (Unit {0}) × R × C). (p, l, s.0, s.1, s.2)) (advance right q r m)

  -- `none` where a process that is named cannot move.
  pub follow : List Bool → State → Option State
  follow [] s = some s
  follow (b ∷ bs) s = elim (step b s) [ none ↦ none | some s' ↦ follow bs s' ]

  module _ (Final : Prog (Unit {0}) → L → Prog (Unit {0}) → R → C → Type 0) where
    abbrev EndsFrom : State → Type 0
    EndsFrom (p, l, q, r, m) = Ends left right Final p l q r m

    -- What was said of all orders still holds behind a call.
    behind_left :
        {p : Prog (Unit {0})} {l : L} {q : Prog (Unit {0})} {r : R} {m : C}
        → Ends left right Final p l q r m
        → (s : Prog (Unit {0}) × L × C) → advance left p l m ≡ some s
        → Ends left right Final s.0 s.1 q r s.2
    behind_left (halted a b f) s e = absurd (cc)
    behind_left (moves can f g) s e = f s.0 s.1 s.2 e

    behind_right :
        {p : Prog (Unit {0})} {l : L} {q : Prog (Unit {0})} {r : R} {m : C}
        → Ends left right Final p l q r m
        → (s : Prog (Unit {0}) × R × C) → advance right q r m ≡ some s
        → Ends left right Final p l s.0 s.1 s.2
    behind_right (halted a b f) s e = absurd (cc)
    behind_right (moves can f g) s e = g s.0 s.1 s.2 e

    step-EndsFrom : (b : Bool) (s s' : State) → EndsFrom s → step b s ≡ some s' → EndsFrom s'
    step-EndsFrom true (p, l, q, r, m) s' h e =
        let (t, e', same) =
          came_from (λ (t : Prog (Unit {0}) × L × C). let u : State = (t.0, t.1, q, r, t.2) in u)
            (advance left p l m) e in
        subst EndsFrom (inside_some same) (behind_left h t e')
    step-EndsFrom false (p, l, q, r, m) s' h e =
        let (t, e', same) =
          came_from (λ (t : Prog (Unit {0}) × R × C). let u : State = (p, l, t.0, t.1, t.2) in u)
            (advance right q r m) e in
        subst EndsFrom (inside_some same) (behind_right h t e')

    follow-EndsFrom :
        (bs : List Bool) (s s' : State) → EndsFrom s → follow bs s ≡ some s' → EndsFrom s'
    unfolding follow
    follow-EndsFrom [] s s' h e = subst EndsFrom (inside_some e) h
    follow-EndsFrom (b ∷ bs) s s' h e =
        by_step (step b s) refl e
          (λ t first rest. follow-EndsFrom bs t s' (step-EndsFrom b s t h first) rest)
      where
        by_step :
            (o : Option State)
            → step b s ≡ o
            → (elim o [ none ↦ none | some t ↦ follow bs t ]) ≡ some s'
            → ((t : State) → step b s ≡ some t → follow bs t ≡ some s' → EndsFrom s')
            → EndsFrom s'
        by_step none first rest later = absurd (cc)
        by_step (some t) first rest later = later t first rest

    at_rest :
        {p : Prog (Unit {0})} {l : L} {q : Prog (Unit {0})} {r : R} {m : C}
        → Ends left right Final p l q r m
        → advance left p l m ≡ none
        → advance right q r m ≡ none
        → Final p l q r m
    at_rest (halted a b f) stuck stuck' = f
    at_rest (moves (inl (s, e)) f g) stuck stuck' = absurd (cc)
    at_rest (moves (inr (s, e)) f g) stuck stuck' = absurd (cc)

    -- Where a schedule leads to a state in which no process can move, `Final` holds.
    pub follow-Final :
        (bs : List Bool) (s s' : State)
        → EndsFrom s
        → follow bs s ≡ some s'
        → step true s' ≡ none
        → step false s' ≡ none
        → Final s'.0 s'.1 s'.2 s'.3 s'.4
    follow-Final bs s s' h e stuck stuck' =
        at_rest (follow-EndsFrom bs s s' h e) (none_before _ _ stuck) (none_before _ _ stuck')

    -- Longer schedules than some number name a process that cannot move.
    abbrev pub IsBounded : State → Type 0
    IsBounded s = (n : ℕ) × ((bs : List Bool) → n < length bs → follow bs s ≡ none)

    one_side :
        (b : Bool) (s : State)
        → ((t : State) → step b s ≡ some t → IsBounded t)
        → (n : ℕ) × ((bs : List Bool) → n < length bs → follow (b ∷ bs) s ≡ none)
    unfolding follow
    one_side b s later = by_step (step b s) refl
      where
        by_step :
            (o : Option State)
            → step b s ≡ o
            → (n : ℕ) × ((bs : List Bool)
                → n < length bs
                → (elim o [ none ↦ none | some t ↦ follow bs t ]) ≡ none)
        by_step none e = (0, λ bs h. refl)
        by_step (some t) e = later t e

    two_sides :
        (s : State)
        → (n : ℕ) × ((bs : List Bool) → n < length bs → follow (true ∷ bs) s ≡ none)
        → (n : ℕ) × ((bs : List Bool) → n < length bs → follow (false ∷ bs) s ≡ none)
        → IsBounded s
    two_sides s (n, bound) (k, bound') = (suc (n + k), by_first)
      where
        by_first : (bs : List Bool) → suc (n + k) < length bs → follow bs s ≡ none
        by_first [] h = absurd (omega arith)
        by_first (true ∷ bs) h = bound bs (omega arith)
        by_first (false ∷ bs) h = bound' bs (omega arith)

    -- No schedule goes on for ever.
    pub Ends-IsBounded :
        {p : Prog (Unit {0})} {l : L} {q : Prog (Unit {0})} {r : R} {m : C}
        → Ends left right Final p l q r m
        → IsBounded (p, l, q, r, m)
    Ends-IsBounded {p} {l} {q} {r} {m} (halted a b f) =
        two_sides (p, l, q, r, m)
          (one_side true (p, l, q, r, m)
            (λ t e. let (u, e', same) = came_from _ (advance left p l m) e in absurd (cc)))
          (one_side false (p, l, q, r, m)
            (λ t e. let (u, e', same) = came_from _ (advance right q r m) e in absurd (cc)))
    Ends-IsBounded {p} {l} {q} {r} {m} (moves can f g) =
        two_sides (p, l, q, r, m)
          (one_side true (p, l, q, r, m)
            (λ t e.
              let (u, e', same) = came_from _ (advance left p l m) e in
              subst IsBounded (inside_some same) (Ends-IsBounded (f u.0 u.1 u.2 e'))))
          (one_side false (p, l, q, r, m)
            (λ t e.
              let (u, e', same) = came_from _ (advance right q r m) e in
              subst IsBounded (inside_some same) (Ends-IsBounded (g u.0 u.1 u.2 e'))))
