-- ===== src/Spool/Tests.antt =====
-- Reachable states by evaluation, and the theorems at them.
use cese_sopg_github_io.Common.{
  ℕ, zero, suc, ◌<◌, ◌≡◌, refl, Bool, true, false, Option, none, some, List, [], ◌∷◌, ◌++◌, arith,
  length, dec_lt, ℕ_discrete, replicate,
}
use mathlib.Core.List.{foldl}
use cese_sopg_github_io.Spool.{
  max_buffers, Shared, Producer, get_buffer, get_mutex, take_index, load_index, store_index,
  wrap_index, reset_index, release_mutex, produce, signal, finished, ProducerMove, wait_buffer,
  wait_mutex, take, load, increment, at_end, not_at_end, wrap, post_mutex, print_text, post_signal,
  Spooler, wait_signal, print, advance, release_buffer, cancelled, SpoolerMove, take_signal,
  print_buffer, next, post_buffer, System, Step, run_producer, run_spooler, cancel, init, Reach,
  start, later,
}
use cese_sopg_github_io.Spool.Safety.{mutual_exclusion, accesses-InArray}
use cese_sopg_github_io.Spool.Progress.{progress}
use cese_sopg_github_io.Spool.Race.{prints_unwritten}
use cese_sopg_github_io.Spool.Unnamed
use cese_sopg_github_io.Spool.Unnamed.Same.{to_named, reach-same}

-- A state with the steps that reach it.
record Reached (n : ℕ) : Type 0 where
  state : System
  reach : Reach n state

-- What a thread does next; nothing, where it is blocked.
producer_move :
    (id : ℕ) (m : Shared) (p : Producer)
    → Option ((m' : Shared) × (p' : Producer) × ProducerMove id m p m' p')
unfolding dec_lt ℕ_discrete
producer_move id m (get_buffer i) = elim (dec_lt 0 m.buffer_count_sem) [
  | yes g ↦ some (_, _, wait_buffer g)
  | no _ ↦ none
]
producer_move id m (get_mutex i) = elim (dec_lt 0 m.mutex_sem) [
  | yes g ↦ some (_, _, wait_mutex g)
  | no _ ↦ none
]
producer_move id m (take_index i) = some (_, _, take)
producer_move id m (load_index i j) = some (_, _, load)
producer_move id m (store_index i j k) = some (_, _, increment)
producer_move id m (wrap_index i j) = elim (ℕ_discrete m.buffer_produce_index max_buffers) [
  | yes e ↦ some (_, _, at_end e)
  | no ne ↦ some (_, _, not_at_end ne)
]
producer_move id m (reset_index i j) = some (_, _, wrap)
producer_move id m (release_mutex i j) = some (_, _, post_mutex)
producer_move id m (produce i j) = some (_, _, print_text)
producer_move id m (signal i) = some (_, _, post_signal)
producer_move id m finished = none

spooler_move :
    (m : Shared) (p : Spooler) → Option ((m' : Shared) × (p' : Spooler) × SpoolerMove m p m' p')
unfolding dec_lt
spooler_move m (wait_signal p) = elim (dec_lt 0 m.spool_signal_sem) [
  | yes g ↦ some (_, _, take_signal g)
  | no _ ↦ none
]
spooler_move m (print p) = some (_, _, print_buffer)
spooler_move m (advance p) = some (_, _, next)
spooler_move m (release_buffer p) = some (_, _, post_buffer)
spooler_move m (cancelled p) = none

-- A run of one producer and the spooler: `true` is a step of the producer.
turn : Reached 1 → Bool → Reached 1
unfolding producer_move spooler_move
turn r true = elim (producer_move 0 r.state.mem (r.state.producer 0)) [
  | none ↦ r
  | some mv ↦ record { state = _; reach = later r.reach (run_producer 0 (omega arith) mv.2) }
]
turn r false = elim (spooler_move r.state.mem r.state.spooler) [
  | none ↦ r
  | some mv ↦ record { state = _; reach = later r.reach (run_spooler mv.2) }
]

run : List Bool → Reached 1
unfolding turn
run schedule = foldl turn (record { state = init; reach = start }) schedule

-- `n` passes of the producer, each printed before the next begins.
abbrev rounds : ℕ → List Bool
rounds zero = []
rounds (suc n) = replicate 9 true ++ (replicate 4 false ++ rounds n)

-- The producer has finished, and the spooler has printed all its strings but the last, whose signal
-- it has taken.
abbrev nearly : List Bool
nearly = rounds 9 ++ (replicate 10 true ++ (false ∷ []))

all_finished : (i : ℕ) → i < 1 → (run nearly).state.producer i ≡ finished
unfolding run
all_finished zero h = refl
all_finished (suc i) h = absurd (omega arith)

-- `main` sees 0 signals and cancels the spooler before its last `printf`.
lost : Reached 1
unfolding run
lost = record {
  state = record (run nearly).state { spooler = cancelled (run nearly).state.spooler };
  reach = later (run nearly).reach (cancel all_finished refl tt);
}

lost_last : (length lost.state.mem.printed ≡ 9) × (lost.state.spooler ≡ cancelled (print 9))
unfolding lost
lost_last = (refl, refl)

mutual_exclusion_example : ◌≡◌ {A = ℕ} 0 0
unfolding run
mutual_exclusion_example =
    mutual_exclusion 0 0 (run (true ∷ true ∷ [])).reach (omega arith) (omega arith) refl refl

-- The fourteenth step begins the second pass; its index is 1.
accesses-InArray_example : (1 < 10) × (1 < 10)
unfolding run
accesses-InArray_example = accesses-InArray 0 (run (rounds 1 ++ replicate 3 true)).reach

progress_example : (t : System) × Step 1 (run nearly).state t
unfolding run
progress_example = progress (run nearly).reach tt

prints_unwritten_example :
    (s : System) × Reach 2 s × (s.mem.printed ≡ none ∷ []) × (s.producer 0 ≡ produce 0 0)
prints_unwritten_example = prints_unwritten 2 (omega arith)

reach-same_example :
    ((s : Unnamed.System) → Unnamed.Reach 1 s → Reach 1 (to_named s))
    × ((t : System) → Reach 1 t → (s : Unnamed.System) × Unnamed.Reach 1 s × (to_named s ≡ t))
reach-same_example = reach-same 1
