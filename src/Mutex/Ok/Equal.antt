-- ===== src/Mutex/Ok/Equal.antt =====
-- material-clases/clase6/ejemplo-mutex/main_ok.c: what `main` prints.
use cese_sopg_github_io.Common.{
  ℕ, ◌+◌, ◌≡◌, ◌≢◌, refl, sym, subst, ◌∙◌, List, [], ◌∷◌, ◌++◌, moved, ℕ_discrete, arith,
}
use cese_sopg_github_io.Mutex.{Data, Shown}
use cese_sopg_github_io.Mutex.Ok.{
  Mutex, unlocked, by_thread, by_main, Thread, lock, load_a, store_a, load_b, store_b, unlock, Main,
  lock_main, read_a, read_b, unlock_main, print, System, ThreadMove, takes, loads_a, stores_a,
  loads_b, stores_b, gives_back, MainMove, main_takes, reads_a, reads_b, main_gives_back, prints,
  Step, run_thread, run_main, Reach, start, later,
}

-- A thread between its two calls holds the mutex, and knows how the counters stand.
abbrev ThreadReady : Data → Mutex → ℕ → Thread → Type 0
ThreadReady d m i lock = Unit
ThreadReady d m i load_a = (m ≡ by_thread i) × (d.a ≡ d.b)
ThreadReady d m i (store_a x) = (m ≡ by_thread i) × (d.a ≡ d.b) × (x ≡ d.a)
ThreadReady d m i load_b = (m ≡ by_thread i) × (d.a ≡ d.b + 1)
ThreadReady d m i (store_b x) = (m ≡ by_thread i) × (d.a ≡ d.b + 1) × (x ≡ d.b)
ThreadReady d m i unlock = (m ≡ by_thread i) × (d.a ≡ d.b)

abbrev MainReady : Data → Mutex → Main → Type 0
MainReady d m lock_main = Unit
MainReady d m read_a = (m ≡ by_main) × (d.a ≡ d.b)
MainReady d m (read_b a) = (m ≡ by_main) × (d.a ≡ d.b) × (a ≡ d.a)
MainReady d m (unlock_main a b) = (m ≡ by_main) × (d.a ≡ d.b) × (a ≡ b)
MainReady d m (print a b) = a ≡ b

abbrev pub AllEqual : List Shown → Type 0
AllEqual [] = Unit
AllEqual (p ∷ ps) = (p.shown_a ≡ p.shown_b) × AllEqual ps

record Inv (s : System) : Type 0 where
  threads : (i : ℕ) → ThreadReady s.data_ab s.mutex i (s.thread i)
  main_ready : MainReady s.data_ab s.mutex s.main
  rest : s.mutex ≡ unlocked → s.data_ab.a ≡ s.data_ab.b
  equal : AllEqual s.printed

-- A thread without the mutex is outside, whatever becomes of the counters and the mutex.
ThreadReady-outside :
    (d d' : Data) (m m' : Mutex) (i : ℕ) (t : Thread)
    → m ≢ by_thread i
    → ThreadReady d m i t
    → ThreadReady d' m' i t
ThreadReady-outside d d' m m' i lock ne h = h
ThreadReady-outside d d' m m' i load_a ne h = absurd (ne h.0)
ThreadReady-outside d d' m m' i (store_a x) ne h = absurd (ne h.0)
ThreadReady-outside d d' m m' i load_b ne h = absurd (ne h.0)
ThreadReady-outside d d' m m' i (store_b x) ne h = absurd (ne h.0)
ThreadReady-outside d d' m m' i unlock ne h = absurd (ne h.0)

MainReady-outside :
    (d d' : Data) (m m' : Mutex) (t : Main) → m ≢ by_main → MainReady d m t → MainReady d' m' t
MainReady-outside d d' m m' lock_main ne h = h
MainReady-outside d d' m m' read_a ne h = absurd (ne h.0)
MainReady-outside d d' m m' (read_b a) ne h = absurd (ne h.0)
MainReady-outside d d' m m' (unlock_main a b) ne h = absurd (ne h.0)
MainReady-outside d d' m m' (print a b) ne h = h

AllEqual-snoc :
    (ps : List Shown) (p : Shown) → p.shown_a ≡ p.shown_b → AllEqual ps → AllEqual (ps ++ (p ∷ []))
AllEqual-snoc [] p e h = (e, tt)
AllEqual-snoc (q ∷ ps) p e h = (h.0, AllEqual-snoc ps p e h.1)

-- What a move of thread `i` leaves behind: the mutex was free or its own, and is so afterwards.
record ThreadAfter (i : ℕ) (m : Mutex) (d' : Data) (m' : Mutex) (t' : Thread) : Type 0 where
  ready : ThreadReady d' m' i t'
  before_other : (j : ℕ) → i ≢ j → m ≢ by_thread j
  before_main : m ≢ by_main
  at_rest : m' ≡ unlocked → d'.a ≡ d'.b

ThreadMove-After :
    {d d' : Data} {m m' : Mutex} {t t' : Thread} (i : ℕ)
    → ThreadMove i d m t d' m' t'
    → ThreadReady d m i t
    → (m ≡ unlocked → d.a ≡ d.b)
    → ThreadAfter i m d' m' t'
ThreadMove-After i takes h r = record {
  ready = (refl, r refl);
  before_other = λ j ne e. cc;
  before_main = λ e. cc;
  at_rest = λ e. absurd (cc);
}
ThreadMove-After i loads_a h r = record {
  ready = (h.0, h.1, refl);
  before_other = λ j ne e. ne (cc);
  before_main = λ e. cc;
  at_rest = λ e. h.1;
}
ThreadMove-After i stores_a h r = record {
  ready = (h.0, omega arith);
  before_other = λ j ne e. ne (cc);
  before_main = λ e. cc;
  at_rest = λ e. absurd (cc);
}
ThreadMove-After i loads_b h r = record {
  ready = (h.0, h.1, refl);
  before_other = λ j ne e. ne (cc);
  before_main = λ e. cc;
  at_rest = λ e. absurd (cc);
}
ThreadMove-After i stores_b h r = record {
  ready = (h.0, omega arith);
  before_other = λ j ne e. ne (cc);
  before_main = λ e. cc;
  at_rest = λ e. omega arith;
}
ThreadMove-After i gives_back h r = record {
  ready = tt;
  before_other = λ j ne e. ne (cc);
  before_main = λ e. cc;
  at_rest = λ e. h.1;
}

-- The same of a move of `main`, which leaves the counters alone.
record MainAfter (d : Data) (m m' : Mutex) (t' : Main) (ps' : List Shown) : Type 0 where
  ready : MainReady d m' t'
  others : (j : ℕ) (t : Thread) → ThreadReady d m j t → ThreadReady d m' j t
  at_rest : m' ≡ unlocked → d.a ≡ d.b
  shown : AllEqual ps'

MainMove-After :
    {d : Data} {m m' : Mutex} {t t' : Main} {ps ps' : List Shown}
    → MainMove d m t ps m' t' ps'
    → MainReady d m t
    → (m ≡ unlocked → d.a ≡ d.b)
    → AllEqual ps
    → MainAfter d m m' t' ps'
MainMove-After {d} main_takes h r eq = record {
  ready = (refl, r refl);
  others = λ j t x. ThreadReady-outside d d unlocked by_main j t (λ e. cc) x;
  at_rest = λ e. absurd (cc);
  shown = eq;
}
MainMove-After reads_a h r eq = record {
  ready = (h.0, h.1, refl);
  others = λ j t x. x;
  at_rest = r;
  shown = eq;
}
MainMove-After reads_b h r eq = record {
  ready = (h.0, h.1, h.2 ∙ h.1);
  others = λ j t x. x;
  at_rest = r;
  shown = eq;
}
MainMove-After {d} {m} main_gives_back h r eq = record {
  ready = h.2;
  others = λ j t x. ThreadReady-outside d d m unlocked j t (λ e. cc) x;
  at_rest = λ e. h.1;
  shown = eq;
}
MainMove-After {ps} prints h r eq = record {
  ready = tt;
  others = λ j t x. x;
  at_rest = r;
  shown = AllEqual-snoc ps _ h eq;
}

moved-at : (f : ℕ → Thread) (i : ℕ) (t : Thread) → moved f i t i ≡ t
moved-at f i t = ground arith

moved-other : (f : ℕ → Thread) (i j : ℕ) (t : Thread) → i ≢ j → moved f i t j ≡ f j
moved-other f i j t ne = ground arith

-- The thread that moved, and the others.
threads-moved :
    (d d' : Data) (m m' : Mutex) (f : ℕ → Thread) (i : ℕ) (t' : Thread)
    → ThreadAfter i m d' m' t'
    → ((j : ℕ) → ThreadReady d m j (f j))
    → (j : ℕ) → ThreadReady d' m' j (moved f i t' j)
threads-moved d d' m m' f i t' after ready j = elim (ℕ_discrete i j) [
  | yes same ↦
      subst (λ k. ThreadReady d' m' k (moved f i t' k)) same
        (subst (ThreadReady d' m' i) (sym (moved-at f i t')) after.ready)
  | no other ↦
      subst (ThreadReady d' m' j) (sym (moved-other f i j t' other))
        (ThreadReady-outside d d' m m' j (f j) (after.before_other j other) (ready j))
]

Step-Inv : {s s' : System} → Step s s' → Inv s → Inv s'
Step-Inv {s} (run_thread i {d} {m} {t} lt move) inv = record {
  threads = threads-moved s.data_ab d s.mutex m s.thread i t after inv.threads;
  main_ready = MainReady-outside s.data_ab d s.mutex m s.main after.before_main inv.main_ready;
  rest = after.at_rest;
  equal = inv.equal;
}
  where
    after : ThreadAfter i s.mutex d m t
    after = ThreadMove-After i move (inv.threads i) inv.rest
Step-Inv {s} (run_main {m} {t} {p} move) inv = record {
  threads = λ j. after.others j (s.thread j) (inv.threads j);
  main_ready = after.ready;
  rest = after.at_rest;
  equal = after.shown;
}
  where
    after : MainAfter s.data_ab s.mutex m t p
    after = MainMove-After move inv.main_ready inv.rest inv.equal

Reach-Inv : {s : System} → Reach s → Inv s
Reach-Inv start = record { threads = λ i. tt; main_ready = tt; rest = λ e. refl; equal = tt }
Reach-Inv (later r st) = Step-Inv st (Reach-Inv r)

-- In every reachable state of the program with the mutex, the two numbers of each line that `main` has
-- printed are equal.
pub prints_equal : {s : System} → Reach s → AllEqual s.printed
prints_equal r = (Reach-Inv r).equal
