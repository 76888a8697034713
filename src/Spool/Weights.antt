-- ===== src/Spool/Weights.antt =====
-- material-clases/clase7/ejemplo-sem2/named.c: what the place of a thread counts for.
use cese_sopg_github_io.Common.{ℕ, ◌<◌}
use cese_sopg_github_io.Spool.{
  max_buffers, passes, Producer, get_buffer, get_mutex, take_index, load_index, store_index,
  wrap_index, reset_index, release_mutex, produce, signal, finished, Spooler, wait_signal, print,
  advance, release_buffer, cancelled,
}

-- 1 from the wait for a buffer to the signal that it is full.
abbrev pub holds : Producer → ℕ
holds (get_buffer _) = 0
holds finished = 0
holds _ = 1

-- 1 inside the critical section.
abbrev pub inside : Producer → ℕ
inside (take_index _) = 1
inside (load_index _ _) = 1
inside (store_index _ _ _) = 1
inside (wrap_index _ _) = 1
inside (reset_index _ _) = 1
inside (release_mutex _ _) = 1
inside _ = 0

-- 1 where the index may stand at MAX_BUFFERS.
abbrev pub unwrapped : Producer → ℕ
unwrapped (wrap_index _ _) = 1
unwrapped (reset_index _ _) = 1
unwrapped _ = 0

abbrev pub before_increment : Producer → ℕ
before_increment (take_index _) = 1
before_increment (load_index _ _) = 1
before_increment (store_index _ _ _) = 1
before_increment _ = 0

-- The strings that a producer has signalled.
abbrev pub signalled : Producer → ℕ
signalled (get_buffer i) = i
signalled (get_mutex i) = i
signalled (take_index i) = i
signalled (load_index i _) = i
signalled (store_index i _ _) = i
signalled (wrap_index i _) = i
signalled (reset_index i _) = i
signalled (release_mutex i _) = i
signalled (produce i _) = i
signalled (signal i) = i
signalled finished = passes

-- The pass is one of the loop, the buffer one of the array, and so is the one that the index stood at when it
-- was loaded to be counted on.
abbrev pub InRange : Producer → Type 0
InRange (get_buffer i) = i < passes
InRange (get_mutex i) = i < passes
InRange (take_index i) = i < passes
InRange (load_index i j) = (i < passes) × (j < max_buffers)
InRange (store_index i j k) = (i < passes) × (j < max_buffers) × (k < max_buffers)
InRange (reset_index i j) = (i < passes) × (j < max_buffers)
InRange (wrap_index i j) = (i < passes) × (j < max_buffers)
InRange (release_mutex i j) = (i < passes) × (j < max_buffers)
InRange (produce i j) = (i < passes) × (j < max_buffers)
InRange (signal i) = i < passes
InRange finished = Unit

-- 1 while the spooler has a buffer that it has not given back.
abbrev pub spooler_holds : Spooler → ℕ
spooler_holds (wait_signal _) = 0
spooler_holds (print _) = 1
spooler_holds (advance _) = 1
spooler_holds (release_buffer _) = 1
spooler_holds (cancelled p) = spooler_holds p

-- 1 between the wait and the `printf`.
abbrev pub unprinted : Spooler → ℕ
unprinted (print _) = 1
unprinted (cancelled p) = unprinted p
unprinted _ = 0

abbrev pub print_index : Spooler → ℕ
print_index (wait_signal p) = p
print_index (print p) = p
print_index (advance p) = p
print_index (release_buffer p) = p
print_index (cancelled p) = print_index p
