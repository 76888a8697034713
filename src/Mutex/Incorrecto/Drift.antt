-- ===== src/Mutex/Incorrecto/Drift.antt =====
-- material-clases/clase6/ejemplo-mutex/main_incorrecto.c: how far apart the two counters can get.
use cese_sopg_github_io.Common.{
  ℕ, zero, suc, ◌+◌, ◌*◌, ◌^◌, ◌<◌, ◌≡◌, refl, subst, fun_ext, [], ◌∷◌, moved, arith,
}
use cese_sopg_github_io.Mutex.Incorrecto.{
  Thread, load_a, read_a, System, ThreadMove, loads_a, stores_a, loads_b, stores_b, reads_a,
  reads_b, prints, run_thread, run_main, Reach, start, later,
}

abbrev pair : Thread → Thread → ℕ → Thread
pair t u zero = t
pair t u (suc zero) = u
pair t u (suc (suc i)) = load_a

-- Threads 0 and 1 where they stand, and `main` before its first read.
abbrev at_threads : ℕ → ℕ → Thread → Thread → System
at_threads a b t u = record {
  data_ab = record { a = a; b = b };
  thread = pair t u;
  main = read_a;
  printed = [];
}

moved-first : (t t' u : Thread) (i : ℕ) → moved (pair t u) 0 t' i ≡ pair t' u i
moved-first t t' u zero = refl
moved-first t t' u (suc zero) = refl
moved-first t t' u (suc (suc i)) = ground arith

moved-second : (t u u' : Thread) (i : ℕ) → moved (pair t u) 1 u' i ≡ pair t u' i
moved-second t u u' zero = refl
moved-second t u u' (suc zero) = refl
moved-second t u u' (suc (suc i)) = ground arith

abbrev with_threads : ℕ → ℕ → (ℕ → Thread) → System
with_threads a b f = record {
  data_ab = record { a = a; b = b };
  thread = f;
  main = read_a;
  printed = [];
}

step_first :
    {a b a' b' : ℕ} {t t' u : Thread}
    → ThreadMove (record { a = a; b = b }) t (record { a = a'; b = b' }) t'
    → Reach (at_threads a b t u)
    → Reach (at_threads a' b' t' u)
step_first {a'} {b'} {t} {t'} {u} move r =
    subst (λ f. Reach (with_threads a' b' f)) (fun_ext (moved-first t t' u))
      (later r (run_thread 0 (omega arith) move))

step_second :
    {a b a' b' : ℕ} {t u u' : Thread}
    → ThreadMove (record { a = a; b = b }) u (record { a = a'; b = b' }) u'
    → Reach (at_threads a b t u)
    → Reach (at_threads a' b' t u')
step_second {a'} {b'} {t} {u} {u'} move r =
    subst (λ f. Reach (with_threads a' b' f)) (fun_ext (moved-second t u u'))
      (later r (run_thread 1 (omega arith) move))

-- Both threads increment `a`; both load `b` before either stores it.
drift :
    (a b : ℕ)
    → a + 1 + 1 < 2 ^ 31
    → b + 1 < 2 ^ 31
    → Reach (at_threads a b load_a load_a)
    → Reach (at_threads (a + 1 + 1) (b + 1) load_a load_a)
drift a b ha hb r = step_second (stores_b hb) (
    step_first (stores_b hb) (
      step_second loads_b (
        step_first loads_b (
          step_second (stores_a ha)
            (step_second loads_a (step_first (stores_a (omega arith)) (step_first loads_a r)))))))

drifted : (k : ℕ) → 2 * k < 2 ^ 31 → Reach (at_threads (2 * k) k load_a load_a)
drifted zero h = subst (λ f. Reach (with_threads 0 0 f)) (fun_ext beginning) start
  where
    beginning : (i : ℕ) → load_a ≡ pair load_a load_a i
    beginning zero = refl
    beginning (suc zero) = refl
    beginning (suc (suc i)) = refl
drifted (suc k) h =
    let e : 2 * k + 1 + 1 ≡ 2 * suc k = omega arith in
    let e' : k + 1 ≡ suc k = omega arith in
    subst (λ b. Reach (at_threads (2 * suc k) b load_a load_a)) e'
      (subst (λ a. Reach (at_threads a (k + 1) load_a load_a)) e
        (drift (2 * k) k (omega arith) (omega arith) (drifted k (omega arith))))

-- Without the mutex, the two numbers of a line can be far apart: for each `k` such that `2 * k` is a value of an
-- `int` a state is reached, without an increment past the values of an `int`, in which `main` has printed
-- `2 * k` and `k`.
pub prints_apart :
    (k : ℕ)
    → 2 * k < 2 ^ 31
    → (s : System) × Reach s × (s.printed ≡ (record { shown_a = 2 * k; shown_b = k }) ∷ [])
prints_apart k h = (
  _,
  later (later (later (drifted k h) (run_main reads_a)) (run_main reads_b)) (run_main prints),
  refl,
)
