-- ===== src/Spool/Progress.antt =====
-- material-clases/clase7/ejemplo-sem2/named.c: who can take the next step.
use cese_sopg_github_io.Common.{
  ℕ, ◌+◌, ◌<◌, ◌≡◌, refl, arith, sum_over, sum_over-find, sum_over-ge, dec_lt, ℕ_discrete,
}
use cese_sopg_github_io.Spool.{
  max_buffers, Shared, Producer, get_buffer, get_mutex, take_index, load_index, store_index,
  wrap_index, reset_index, release_mutex, produce, signal, finished, ProducerMove, wait_buffer,
  wait_mutex, take, load, increment, at_end, not_at_end, wrap, post_mutex, print_text, post_signal,
  Spooler, wait_signal, print, advance, release_buffer, cancelled, IsRunning, SpoolerMove,
  take_signal, print_buffer, next, post_buffer, System, Step, run_producer, run_spooler, cancel,
  Reach,
}
use cese_sopg_github_io.Spool.Invariant.{Inv, Reach-Inv}
use cese_sopg_github_io.Spool.Weights.{holds, inside, spooler_holds}

-- A thread that can take a step now.
abbrev ProducerCan : ℕ → Shared → Producer → Type 0
ProducerCan id m p = (m' : Shared) × (p' : Producer) × ProducerMove id m p m' p'

abbrev Next : ℕ → System → Type 0
Next n s = (t : System) × Step n s t

by_producer : {n : ℕ} (s : System) (i : ℕ) → i < n → ProducerCan i s.mem (s.producer i) → Next n s
by_producer s i lt (m, p, mv) = (_, run_producer i lt mv)

wrap-can : (id : ℕ) (m : Shared) (i j : ℕ) → ProducerCan id m (wrap_index i j)
wrap-can id m i j = elim (ℕ_discrete m.buffer_produce_index max_buffers) [
  | yes e ↦ (_, _, at_end e)
  | no ne ↦ (_, _, not_at_end ne)
]

-- A producer in the critical section is never blocked.
inside-can : (id : ℕ) (m : Shared) (p : Producer) → 0 < inside p → ProducerCan id m p
inside-can id m (take_index i) h = (_, _, take)
inside-can id m (load_index i j) h = (_, _, load)
inside-can id m (store_index i j k) h = (_, _, increment)
inside-can id m (wrap_index i j) h = wrap-can id m i j
inside-can id m (reset_index i j) h = (_, _, wrap)
inside-can id m (release_mutex i j) h = (_, _, post_mutex)
inside-can id m _ h = absurd (omega arith)

-- With the mutex free, a producer that has a buffer is not blocked.
holds-can :
    (id : ℕ) (m : Shared) (p : Producer) → 0 < m.mutex_sem → 0 < holds p → ProducerCan id m p
holds-can id m (get_mutex i) free h = (_, _, wait_mutex free)
holds-can id m (produce i j) free h = (_, _, print_text)
holds-can id m (signal i) free h = (_, _, post_signal)
holds-can id m (get_buffer i) free h = absurd (omega arith)
holds-can id m finished free h = absurd (omega arith)
holds-can id m p free h = inside-can id m p (omega arith)

abbrev SpoolerCan : Shared → Spooler → Type 0
SpoolerCan m p = (m' : Shared) × (p' : Spooler) × SpoolerMove m p m' p'

by_spooler : {n : ℕ} (s : System) → SpoolerCan s.mem s.spooler → Next n s
by_spooler s (m, p, mv) = (_, run_spooler mv)

-- The spooler is blocked only at 0 signals.
spooler-can :
    (m : Shared) (p : Spooler)
    → IsRunning p
    → 0 < m.spool_signal_sem + spooler_holds p
    → SpoolerCan m p
spooler-can m (wait_signal i) live h = (_, _, take_signal (omega arith))
spooler-can m (print i) live h = (_, _, print_buffer)
spooler-can m (advance i) live h = (_, _, next)
spooler-can m (release_buffer i) live h = (_, _, post_buffer)
spooler-can m (cancelled p) live h = absurd live

-- 1 where a producer wants a buffer.
abbrev wants : Producer → ℕ
wants (get_buffer _) = 1
wants _ = 0

wants-can :
    (id : ℕ) (m : Shared) (p : Producer) → 0 < m.buffer_count_sem → 0 < wants p → ProducerCan id m p
wants-can id m (get_buffer i) free h = (_, _, wait_buffer free)
wants-can id m _ free h = absurd (omega arith)

finished_of : (p : Producer) → holds p ≡ 0 → wants p ≡ 0 → p ≡ finished
finished_of finished h w = refl
finished_of _ h w = absurd (omega arith)

module _ {n : ℕ} {s : System} (inv : Inv n s.mem s.producer s.spooler) where
  all_finished :
      sum_over holds n s.producer ≡ 0
      → sum_over wants n s.producer ≡ 0
      → (i : ℕ) → i < n
      → s.producer i ≡ finished
  all_finished none_hold none_want i lt =
      finished_of (s.producer i) (omega (arith, none_hold, sum_over-ge holds n s.producer i lt))
        (omega (arith, none_want, sum_over-ge wants n s.producer i lt))

  -- No producer holds a buffer and the spooler has nothing to do.
  idle-Next :
      IsRunning s.spooler
      → sum_over holds n s.producer ≡ 0
      → s.mem.spool_signal_sem + spooler_holds s.spooler ≡ 0
      → Next n s
  idle-Next live none_hold idle = elim (dec_lt 0 (sum_over wants n s.producer)) [
    | yes some_want ↦
        let (i, lt, w) = sum_over-find wants n s.producer some_want in
        by_producer s i lt (wants-can i s.mem (s.producer i) (omega (arith, inv.buffers)) w)
    | no none_want ↦ (_, cancel (all_finished none_hold (omega arith)) (omega arith) live)
  ]

  outside-Next : IsRunning s.spooler → 0 < s.mem.mutex_sem → Next n s
  outside-Next live free = elim (dec_lt 0 (sum_over holds n s.producer)) [
    | yes some_hold ↦
        let (i, lt, w) = sum_over-find holds n s.producer some_hold in
        by_producer s i lt (holds-can i s.mem (s.producer i) free w)
    | no none_hold ↦ elim (dec_lt 0 (s.mem.spool_signal_sem + spooler_holds s.spooler)) [
      | yes busy ↦ by_spooler s (spooler-can s.mem s.spooler live busy)
      | no idle ↦ idle-Next live (omega arith) (omega arith)
    ]
  ]

-- In every reachable state in which the spooler is not cancelled, some thread can take a step:
-- there is no deadlock.
pub progress : {n : ℕ} {s : System} → Reach n s → IsRunning s.spooler → (t : System) × Step n s t
progress {n} {s} r live = elim (dec_lt 0 (sum_over inside n s.producer)) [
  | yes some_inside ↦
      let (i, lt, w) = sum_over-find inside n s.producer some_inside in
      by_producer s i lt (inside-can i s.mem (s.producer i) w)
  | no none_inside ↦ outside-Next (Reach-Inv r) live (omega (arith, (Reach-Inv r).lock))
]
