-- ===== src/Spool/Strings.antt =====
-- material-clases/clase7/ejemplo-sem2/named.c: what the buffers hold and what the spooler prints.
use cese_sopg_github_io.Common.{
  ℕ, ◌≤◌, ◌<◌, ◌==◌, Bool-cases, inl, inr, Option, none, some, List, [], ◌∷◌, ◌++◌, arith,
}
use cese_sopg_github_io.Spool.{
  passes, Text, Shared, Producer, ProducerMove, wait_buffer, wait_mutex, take, load, increment,
  at_end, not_at_end, wrap, post_mutex, print_text, post_signal, Spooler, SpoolerMove, take_signal,
  print_buffer, next, post_buffer, System, run_producer, run_spooler, cancel, Reach, start, later,
}
use cese_sopg_github_io.Spool.Invariant.{Reach-Inv}
use cese_sopg_github_io.Spool.Weights.{InRange}

-- Nothing, or one of the ten strings of one of the `n` producers.
abbrev pub IsString : ℕ → Option Text → Type 0
IsString n none = Unit
IsString n (some t) = (t.my_id < n) × (0 < t.count) × (t.count ≤ passes)

abbrev pub AllStrings : ℕ → List (Option Text) → Type 0
AllStrings n [] = Unit
AllStrings n (o ∷ os) = IsString n o × AllStrings n os

AllStrings-append :
    (n : ℕ) (os : List (Option Text)) (o : Option Text)
    → AllStrings n os
    → IsString n o
    → AllStrings n (os ++ (o ∷ []))
AllStrings-append n [] o h own = (own, tt)
AllStrings-append n (p ∷ os) o h own = (h.0, AllStrings-append n os o h.1 own)

-- The buffers and the output.
record HasStrings (n : ℕ) (buf : ℕ → Option Text) (printed : List (Option Text)) : Type 0 where
  in_buffers : (j : ℕ) → IsString n (buf j)
  in_output : AllStrings n printed

module _ {n : ℕ} {m : Shared} (strings : HasStrings n m.buf m.printed) where
  ProducerMove-HasStrings :
      {i : ℕ} {a b : Producer} {m' : Shared}
      → ProducerMove i m a m' b
      → i < n
      → InRange a
      → HasStrings n m'.buf m'.printed
  ProducerMove-HasStrings (wait_buffer g) lt own = strings
  ProducerMove-HasStrings (wait_mutex g) lt own = strings
  ProducerMove-HasStrings take lt own = strings
  ProducerMove-HasStrings load lt own = strings
  ProducerMove-HasStrings increment lt own = strings
  ProducerMove-HasStrings (at_end e) lt own = strings
  ProducerMove-HasStrings (not_at_end ne) lt own = strings
  ProducerMove-HasStrings wrap lt own = strings
  ProducerMove-HasStrings post_mutex lt own = strings
  ProducerMove-HasStrings (print_text {i = pass} {j}) lt own = record {
    in_buffers = λ k. elim (Bool-cases (j == k)) [
      | inl same ↦ rw same (lt, omega arith, omega arith)
      | inr other ↦ rw other (strings.in_buffers k)
    ];
    in_output = strings.in_output;
  }
  ProducerMove-HasStrings post_signal lt own = strings

  SpoolerMove-HasStrings :
      {p p' : Spooler} {m' : Shared} → SpoolerMove m p m' p' → HasStrings n m'.buf m'.printed
  SpoolerMove-HasStrings (take_signal g) = strings
  SpoolerMove-HasStrings (print_buffer {p = k}) = record {
    in_buffers = strings.in_buffers;
    in_output = AllStrings-append n m.printed (m.buf k) strings.in_output (strings.in_buffers k);
  }
  SpoolerMove-HasStrings next = strings
  SpoolerMove-HasStrings post_buffer = strings

Reach-HasStrings : {n : ℕ} {s : System} → Reach n s → HasStrings n s.mem.buf s.mem.printed
Reach-HasStrings start = record { in_buffers = λ j. tt; in_output = tt }
Reach-HasStrings (later r (run_producer i lt mv)) =
    ProducerMove-HasStrings (Reach-HasStrings r) mv lt ((Reach-Inv r).range i)
Reach-HasStrings (later r (run_spooler mv)) = SpoolerMove-HasStrings (Reach-HasStrings r) mv
Reach-HasStrings (later r (cancel done quiet live)) = Reach-HasStrings r

-- What is printed in a reachable state.
pub Reach-AllStrings : {n : ℕ} {s : System} → Reach n s → AllStrings n s.mem.printed
Reach-AllStrings r = (Reach-HasStrings r).in_output
