-- ===== src/Spool/Race.antt =====
-- material-clases/clase7/ejemplo-sem2/named.c: the order of the signals and the order of the buffers.
use cese_sopg_github_io.Common.{ℕ, ◌≤◌, ◌≡◌, refl, none, [], ◌∷◌, arith}
use cese_sopg_github_io.Spool.{
  produce, wait_buffer, wait_mutex, take, load, increment, not_at_end, post_mutex, print_text,
  post_signal, take_signal, print_buffer, System, Step, run_producer, run_spooler, Reach, start,
  later,
}

infixl 5 ◌▸◌
-- One more step.
abbrev ◌▸◌ : {n : ℕ} {s t : System} → Reach n s → Step n s t → Reach n t
r ▸ step = later r step

-- With two producers or more, a state is reached in which the spooler has printed a buffer that
-- nothing was written to, while producer 0, which has taken it, still stands before its `sprintf`.
pub prints_unwritten :
    (n : ℕ)
    → 2 ≤ n
    → (s : System) × Reach n s × (s.mem.printed ≡ none ∷ []) × (s.producer 0 ≡ produce 0 0)
prints_unwritten n h = (
  _,
  start
      ▸ run_producer 0 (omega arith) (wait_buffer (omega arith))
      ▸ run_producer 0 (omega arith) (wait_mutex (omega arith))
      ▸ run_producer 0 (omega arith) take
      ▸ run_producer 0 (omega arith) load
      ▸ run_producer 0 (omega arith) increment
      ▸ run_producer 0 (omega arith) (not_at_end (λ e. absurd (omega arith)))
      ▸ run_producer 0 (omega arith) post_mutex
      ▸ run_producer 1 (omega arith) (wait_buffer (omega arith))
      ▸ run_producer 1 (omega arith) (wait_mutex (omega arith))
      ▸ run_producer 1 (omega arith) take
      ▸ run_producer 1 (omega arith) load
      ▸ run_producer 1 (omega arith) increment
      ▸ run_producer 1 (omega arith) (not_at_end (λ e. absurd (omega arith)))
      ▸ run_producer 1 (omega arith) post_mutex
      ▸ run_producer 1 (omega arith) print_text
      ▸ run_producer 1 (omega arith) post_signal
      ▸ run_spooler (take_signal (omega arith))
      ▸ run_spooler print_buffer,
  refl,
  refl,
)
