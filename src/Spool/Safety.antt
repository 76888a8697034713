-- ===== src/Spool/Safety.antt =====
-- material-clases/clase7/ejemplo-sem2/named.c: the reachable states of the producers and the spooler.
use cese_sopg_github_io.Common.{
  ℕ, ◌+◌, ◌≤◌, ◌<◌, ◌≡◌, Option, none, some, arith, sum_over-ge_two, ℕ_discrete,
}
use cese_sopg_github_io.Spool.{
  max_buffers, Producer, load_index, store_index, wrap_index, reset_index, release_mutex, produce,
  finished, System, Reach,
}
use cese_sopg_github_io.Spool.Invariant.{Reach-Inv}
use cese_sopg_github_io.Spool.Weights.{inside, InRange, print_index}

-- Between `sem_wait(mutex_sem)` and `sem_post(mutex_sem)`.
abbrev pub InSection : Producer → Type 0
InSection p = inside p ≡ 1

-- In every reachable state, no two of the `n` producers are in the critical section at once.
pub mutual_exclusion :
    {n : ℕ} {s : System} (i j : ℕ)
    → Reach n s
    → i < n
    → j < n
    → InSection (s.producer i)
    → InSection (s.producer j)
    → i ≡ j
mutual_exclusion {n} {s} i j r hi hj in_i in_j = elim (ℕ_discrete i j) [
  | yes e ↦ e
  | no ne ↦
      absurd (omega (arith, (Reach-Inv r).lock, sum_over-ge_two inside n s.producer i j hi hj ne))
]

-- In every reachable state, `mutex_sem` is at most 1, and `buffer_count_sem` and `spool_signal_sem`
-- together, and so each, are at most MAX_BUFFERS.
semaphore_bounds :
    {n : ℕ} {s : System}
    → Reach n s
    → (s.mem.mutex_sem ≤ 1)
      × (s.mem.buffer_count_sem ≤ max_buffers)
      × (s.mem.spool_signal_sem ≤ max_buffers)
      × (s.mem.buffer_count_sem + s.mem.spool_signal_sem ≤ max_buffers)
semaphore_bounds r = omega (arith, (Reach-Inv r).lock, (Reach-Inv r).buffers)

-- The buffer that a producer has taken.
abbrev pub buffer_of : Producer → Option ℕ
buffer_of (load_index i j) = some j
buffer_of (store_index i j k) = some j
buffer_of (wrap_index i j) = some j
buffer_of (reset_index i j) = some j
buffer_of (release_mutex i j) = some j
buffer_of (produce i j) = some j
buffer_of _ = none

-- An index, if there is one, lies in the array of buffers.
abbrev pub InArray : Option ℕ → Type 0
InArray none = Unit
InArray (some j) = j < max_buffers

buffer_of-InArray : (p : Producer) → InRange p → InArray (buffer_of p)
buffer_of-InArray (load_index i j) h = ground arith
buffer_of-InArray (store_index i j k) h = ground arith
buffer_of-InArray (wrap_index i j) h = ground arith
buffer_of-InArray (reset_index i j) h = ground arith
buffer_of-InArray (release_mutex i j) h = ground arith
buffer_of-InArray (produce i j) h = ground arith
buffer_of-InArray p h = tt

-- In every reachable state, whatever the producers do, the index of the spooler lies in the array of buffers,
-- and so does the index that a producer has taken, if it has taken one.
pub accesses-InArray :
    {n : ℕ} {s : System} (i : ℕ)
    → Reach n s
    → InArray (buffer_of (s.producer i)) × (print_index s.spooler < max_buffers)
accesses-InArray {s} i r =
    (buffer_of-InArray (s.producer i) ((Reach-Inv r).range i), (Reach-Inv r).in_array)

-- What is known once `main` has cancelled the spooler.
record Ended (n : ℕ) (s : System) : Type 0 where
  all_done : (i : ℕ) → i < n → s.producer i ≡ finished
  quiet : s.mem.spool_signal_sem ≡ 0
