-- ===== src/Spool/Invariant.antt =====
-- material-clases/clase7/ejemplo-sem2/named.c: what the semaphores count, step by step.
use cese_sopg_github_io.Common.{
  ℕ, ◌+◌, ◌≤◌, ◌<◌, ◌≡◌, refl, [], ◌∷◌, length, arith, moved, Bool-cases, inl, inr, sum_over,
  sum_over-moved, sum_over-ge, sum_over-add_le, sum_over-const, length-append, ◌==◌,
}
use cese_sopg_github_io.Spool.{
  max_buffers, Shared, Producer, get_buffer, ProducerMove, wait_buffer, wait_mutex, take, load,
  increment, at_end, not_at_end, wrap, post_mutex, print_text, post_signal, Spooler, SpoolerMove,
  take_signal, print_buffer, next, post_buffer, System, Step, run_producer, run_spooler, cancel,
  init, Reach, start, later,
}
use cese_sopg_github_io.Spool.Weights.{
  holds, inside, unwrapped, before_increment, signalled, InRange, spooler_holds, unprinted,
  print_index,
}

pub record Inv (n : ℕ) (m : Shared) (f : ℕ → Producer) (p : Spooler) : Type 0 where
  pub buffers :
      m.buffer_count_sem + sum_over holds n f + m.spool_signal_sem + spooler_holds p ≡ max_buffers
  pub lock : m.mutex_sem + sum_over inside n f ≡ 1
  pub index : m.buffer_produce_index < max_buffers + sum_over unwrapped n f
  pub strings : length m.printed + m.spool_signal_sem + unprinted p ≡ sum_over signalled n f
  pub range : (i : ℕ) → InRange (f i)
  pub in_array : print_index p < max_buffers

module _ {n : ℕ} {m : Shared} {f : ℕ → Producer} {p : Spooler} (inv : Inv n m f p) where
  open inv use {range}

  exclusive : sum_over unwrapped n f + sum_over before_increment n f ≤ sum_over inside n f
  exclusive = sum_over-add_le unwrapped before_increment inside n f (λ a. ground arith)

  -- The sums when thread `i` goes from `a` to `b`. A match on a move needs the variable `a`.
  record Change (i : ℕ) (a b : Producer) : Type 0 where
    here : f i ≡ a
    holding : sum_over holds n (moved f i b) + holds a ≡ holds b + sum_over holds n f
    insiding : sum_over inside n (moved f i b) + inside a ≡ inside b + sum_over inside n f
    wrapping :
        sum_over unwrapped n (moved f i b) + unwrapped a ≡ unwrapped b + sum_over unwrapped n f
    signalling :
        sum_over signalled n (moved f i b) + signalled a ≡ signalled b + sum_over signalled n f
    own : InRange a
    incrementing : before_increment a ≤ sum_over before_increment n f

  change : (i : ℕ) → i < n → (b : Producer) → Change i (f i) b
  change i lt b = record {
    here = refl;
    holding = sum_over-moved holds n f i b lt;
    insiding = sum_over-moved inside n f i b lt;
    wrapping = sum_over-moved unwrapped n f i b lt;
    signalling = sum_over-moved signalled n f i b lt;
    own = range i;
    incrementing = sum_over-ge before_increment n f i lt;
  }

  -- What the sums and semaphores say after a move to `b`.
  record After (i : ℕ) (m' : Shared) (b : Producer) : Type 0 where
    buffers :
        m'.buffer_count_sem + sum_over holds n (moved f i b) + m'.spool_signal_sem + spooler_holds p
        ≡ max_buffers
    lock : m'.mutex_sem + sum_over inside n (moved f i b) ≡ 1
    index : m'.buffer_produce_index < max_buffers + sum_over unwrapped n (moved f i b)
    strings :
        length m'.printed + m'.spool_signal_sem + unprinted p ≡ sum_over signalled n (moved f i b)
    own : InRange b

  move-counts :
      {i : ℕ} {a b : Producer} {m' : Shared} → ProducerMove i m a m' b → Change i a b → After i m' b
  move-counts (wait_buffer g) c = ground arith
  move-counts (wait_mutex g) c = ground arith
  move-counts take c = ground (arith, exclusive)
  move-counts load c = ground (arith, exclusive)
  move-counts increment c = ground (arith, exclusive)
  move-counts (at_end e) c = ground (arith, exclusive)
  move-counts (not_at_end ne) c = ground (arith, exclusive)
  move-counts wrap c = ground (arith, exclusive)
  move-counts post_mutex c = ground arith
  move-counts print_text c = ground arith
  move-counts post_signal c = ground arith

  move-range :
      {i : ℕ} {a b : Producer} {m' : Shared}
      → ProducerMove i m a m' b
      → InRange b
      → (j : ℕ) → InRange (moved f i b j)
  move-range {i} {b = b} mv own j = elim (Bool-cases (i == j)) [
    | inl same ↦ rw same own
    | inr other ↦ rw other (range j)
  ]

  pub ProducerMove-Inv :
      (i : ℕ) {b : Producer} {m' : Shared}
      → i < n
      → ProducerMove i m (f i) m' b
      → Inv n m' (moved f i b) p
  ProducerMove-Inv i {b} {m'} lt mv = record {
    buffers = after.buffers;
    lock = after.lock;
    index = after.index;
    strings = after.strings;
    range = move-range mv after.own;
    in_array = inv.in_array;
  }
    where
      after : After i m' b
      after = move-counts mv (change i lt b)

  record SpoolerAfter (m' : Shared) (p' : Spooler) : Type 0 where
    buffers :
        m'.buffer_count_sem + sum_over holds n f + m'.spool_signal_sem + spooler_holds p'
        ≡ max_buffers
    lock : m'.mutex_sem + sum_over inside n f ≡ 1
    index : m'.buffer_produce_index < max_buffers + sum_over unwrapped n f
    strings : length m'.printed + m'.spool_signal_sem + unprinted p' ≡ sum_over signalled n f
    in_array : print_index p' < max_buffers

spooler_counts :
    {n : ℕ} {m m' : Shared} {f : ℕ → Producer} {p p' : Spooler} (inv : Inv n m f p)
    → SpoolerMove m p m' p'
    → SpoolerAfter inv m' p'
spooler_counts inv (take_signal g) = ground arith
spooler_counts {m} inv (print_buffer {p = k}) =
    ground (arith, length-append m.printed (m.buf k ∷ []))
spooler_counts inv next = ground arith
spooler_counts inv post_buffer = ground arith

pub SpoolerMove-Inv :
    {n : ℕ} {m m' : Shared} {f : ℕ → Producer} {p p' : Spooler}
    → Inv n m f p
    → SpoolerMove m p m' p'
    → Inv n m' f p'
SpoolerMove-Inv {m'} {p'} inv mv = record {
  buffers = after.buffers;
  lock = after.lock;
  index = after.index;
  strings = after.strings;
  range = inv.range;
  in_array = after.in_array;
}
  where
    after : SpoolerAfter inv m' p'
    after = spooler_counts inv mv

sum-init : (w : Producer → ℕ) (n : ℕ) → w (get_buffer 0) ≡ 0 → sum_over w n (λ _. get_buffer 0) ≡ 0
sum-init w n h = omega (arith, sum_over-const w n 0 (λ _. get_buffer 0) (λ i lt. h))

pub init-Inv : (n : ℕ) → Inv n init.mem init.producer init.spooler
init-Inv n = record {
  buffers = omega (arith, sum-init holds n refl);
  lock = omega (arith, sum-init inside n refl);
  index = omega arith;
  strings = omega (arith, sum-init signalled n refl);
  range = λ i. omega arith;
  in_array = omega arith;
}

pub Step-Inv :
    {n : ℕ} {s t : System}
    → Step n s t
    → Inv n s.mem s.producer s.spooler
    → Inv n t.mem t.producer t.spooler
Step-Inv (run_producer i lt mv) inv = ProducerMove-Inv inv i lt mv
Step-Inv (run_spooler mv) inv = SpoolerMove-Inv inv mv
Step-Inv (cancel done quiet live) inv = record {
  buffers = inv.buffers;
  lock = inv.lock;
  index = inv.index;
  strings = inv.strings;
  range = inv.range;
  in_array = inv.in_array;
}

-- Every reachable state has the invariant.
pub Reach-Inv : {n : ℕ} {s : System} → Reach n s → Inv n s.mem s.producer s.spooler
Reach-Inv {n} start = init-Inv n
Reach-Inv (later r st) = Step-Inv st (Reach-Inv r)
