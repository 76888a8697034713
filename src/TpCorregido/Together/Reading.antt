-- ===== src/TpCorregido/Together/Reading.antt =====
-- A `read` of a whole message by the Reader: the Writer can neither prevent nor notice it.
use cese_sopg_github_io.Common.{
  ℕ_discrete, ℕ, ◌≤◌, ◌≡◌, refl, ap, ◌∙◌, some, List, [], ◌∷◌, ◌++◌, length, take, drop, arith,
  length-append, length-drop, take-append_of_le, drop-append_of_le,
}
use cese_sopg_github_io.Memory.{Bytes}
use cese_sopg_github_io.Posix.{Call, Reply, ok}
use cese_sopg_github_io.Processes.Laws.{Independent}
use cese_sopg_github_io.TpCorregido.Together.Kernels.{
  Fifo, Users, present, Logs, push, pull, writer_side, reader_side,
}

-- At the front of the FIFO there is the message `frame`.
abbrev pub InFront : Bytes → Fifo → Type 0
InFront frame m = (26 ≤ length m.bytes) × (take 26 m.bytes ≡ frame)

abbrev pub without_first : Fifo → Fifo
without_first m = record m { bytes = drop 26 m.bytes }

InFront-append :
    (frame : Bytes) (m : Fifo) (bs : Bytes)
    → InFront frame m
    → InFront frame (record m { bytes = m.bytes ++ bs })
InFront-append frame m bs h =
    (omega (arith, length-append m.bytes bs, h.0), take-append_of_le 26 m.bytes bs h.0 ∙ h.1)

push-InFront :
    (frame : Bytes) (u : Users) (bs : Bytes) (l l' : List Bytes) (a : Reply (Call.write 3 []))
    (m m' : Fifo)
    → InFront frame m
    → push u bs l m ≡ some (a, l', m')
    → InFront frame m'
push-InFront frame present bs l l' a m m' h e = ground (arith, InFront-append frame m bs)
push-InFront frame _ bs l l' a m m' h e = ground arith

same_bytes : (frame : Bytes) (m m' : Fifo) → InFront frame m → m'.bytes ≡ m.bytes → InFront frame m'
same_bytes frame m m' h e = rw e h

write-InFront :
    (frame : Bytes) (fd : ℕ) (bs : Bytes) (l l' : List Bytes) (a : Reply (Call.write fd bs))
    (m m' : Fifo)
    → InFront frame m
    → writer_side (Call.write fd bs) l m ≡ some (a, l', m')
    → InFront frame m'
write-InFront frame fd bs l l' a m m' h e = elim (ℕ_discrete fd 3) [
  | yes fifo ↦ push-InFront frame m.readers bs l l' a m m' h (ground arith)
  | no other ↦ same_bytes frame m m' h (ground arith)
]

kept :
    (frame : Bytes) (d : Call) (l l' : List Bytes) (b : Reply d) (m m' : Fifo)
    → InFront frame m
    → writer_side d l m ≡ some (b, l', m')
    → InFront frame m'
kept frame (Call.write fd bs) l l' b m m' h e = write-InFront frame fd bs l l' b m m' h e
kept frame d l l' b m m' h e = same_bytes frame m m' h (ground arith)

push-unnoticed :
    (u : Users) (bs : Bytes) (l l' : List Bytes) (a : Reply (Call.write 3 [])) (m m' : Fifo)
    → 26 ≤ length m.bytes
    → push u bs l m ≡ some (a, l', m')
    → push u bs l (without_first m) ≡ some (a, l', without_first m')
push-unnoticed present bs l l' a m m' h e =
    ground (arith, length-drop 26 m.bytes, drop-append_of_le 26 m.bytes bs h)
push-unnoticed _ bs l l' a m m' h e = ground arith

unnoticed :
    (d : Call) (l l' : List Bytes) (b : Reply d) (m m' : Fifo)
    → 26 ≤ length m.bytes
    → writer_side d l m ≡ some (b, l', m')
    → writer_side d l (without_first m) ≡ some (b, l', without_first m')
unnoticed (Call.write fd bs) l l' b m m' h e =
    ground (arith, push-unnoticed m.readers bs l l' b m m' h)
unnoticed (Call.open_file path flags) l l' b m m' h e = ground arith
unnoticed d l l' b m m' h e = ground arith

pulled :
    (u : Users) (bs : Bytes) (l : Logs) (m : Fifo)
    → 26 ≤ length bs
    → pull u bs 26 l m ≡ some (ok (take 26 bs), l, record m { bytes = drop 26 bs })
pulled u [] l m h = absurd (omega arith)
pulled u (b ∷ bs) l m h = refl

pub reading-Independent :
    (frame : Bytes) (l : Logs)
    → Independent reader_side writer_side
        (Call.read 3 26)
        l
        l
        (ok frame)
        (InFront frame)
        without_first
reading-Independent frame l = record {
  now = λ m h. pulled m.writers m.bytes l m h.0 ∙ ap (λ a. some (ok a, l, without_first m)) h.1;
  kept = kept frame;
  unnoticed = λ d r r' b m m' h e. unnoticed d r r' b m m' h.0 e;
}
