-- ===== src/TpCorregido/Link/Lockstep.antt =====
-- The Writer and the Reader in turns: each message is read before the next one is sent.
use cese_sopg_github_io.Common.{
  ℕ, zero, suc, ◌≤◌, ◌≡◌, ◌≢◌, refl, ap, ap₂, ◌∙◌, List, [], ◌∷◌, ◌++◌, length, take, drop, arith,
  take_of_le, drop_of_le,
}
use cese_sopg_github_io.Memory.{Bytes, until_nul-until_nul}
use cese_sopg_github_io.Posix.{Signal, Outcome, running, run}
use cese_sopg_github_io.TpCorregido.Kernel.{
  World, File, write_file, writer_os, reader_os, opened, terminal_bytes,
}
use cese_sopg_github_io.TpCorregido.Protocol.{
  cut, payload, data_frame, sign_frame, digit, route, route-data_frame, route-sign_frame,
  length-payload,
}
use cese_sopg_github_io.TpCorregido.Writer
use cese_sopg_github_io.TpCorregido.Reader
use cese_sopg_github_io.TpCorregido.Link.Steps.{
  sent, received, delivered, run-writer_round, run-reader_round, run-handler,
}

-- One pass of the Writer's loop, then one of the Reader's.
abbrev pub turn : Bytes → Bytes → World → World
turn rest slack w =
    (run reader_os (Reader.round slack opened) (run writer_os (Writer.round rest 3) w).1).1

-- `n` turns
pub turns : Bytes → Bytes → ℕ → World → World
turns rest slack zero w = w
turns rest slack (suc n) w = turns rest slack n (turn rest slack w)

-- The log with the line of one input.
abbrev pub log_line : File → Bytes → File
log_line f bytes = write_file f (payload bytes ++ (b'\n' ∷ []))

-- The log with the lines of several inputs.
abbrev pub log_lines : File → List Bytes → File
log_lines f [] = f
log_lines f (l ∷ ls) = log_lines (log_line f l) ls

-- An empty FIFO, with lines that wait at the terminal.
abbrev pub quiet : List Bytes → File → File → World
quiet ls log signals = record { stdin = ls; fifo = []; log = log; signals = signals }

-- A message that is alone in the FIFO, and no longer than one `read`.
pub received-alone :
    (w : World) (message : Bytes)
    → length message ≤ 26
    → w.fifo ≡ message
    → received w ≡ delivered (route message) (record w { fifo = [] })
received-alone w message short e =
    ap₂ (λ a b. delivered (route a) (record w { fifo = b }))
      (ap (take 26) e ∙ take_of_le 26 message short) (ap (drop 26) e ∙ drop_of_le 26 message short)

length-frame : (bytes : Bytes) → length bytes ≤ 20 → length (data_frame (payload bytes)) ≤ 26
length-frame bytes short = omega (arith, length-payload bytes short)

sent-quiet :
    (l : Bytes) (ls : List Bytes) (log signals : File)
    → length l ≤ 20
    → sent (quiet (l ∷ ls) log signals)
      ≡ record { stdin = ls; fifo = data_frame (payload l); log = log; signals = signals }
sent-quiet l ls log signals short = rw (take_of_le 20 l short, drop_of_le 20 l short)

pub terminal-ne-nil : (l : Bytes) (ls : List Bytes) → l ≢ [] → terminal_bytes 20 (l ∷ ls) ≢ []
terminal-ne-nil [] ls h = absurd (h refl)
terminal-ne-nil (b ∷ l) ls h = cc

pub turn-line :
    (rest : Bytes) (x : ℕ) (more l : Bytes) (ls : List Bytes) (log signals : File)
    → l ≢ []
    → length l ≤ 20
    → turn rest (x ∷ more) (quiet (l ∷ ls) log signals) ≡ quiet ls (log_line log l) signals
turn-line rest x more l ls log signals some_input short =
    ap (λ (w : World). (run reader_os (Reader.round (x ∷ more) opened) w).1) writer
    ∙ ap (λ (r : Outcome (Unit {0}) × World). r.1) (run-reader_round x more between cc)
    ∙ received-alone between (data_frame (payload l)) (length-frame l short) refl
    ∙ ap (λ r. delivered r (record between { fifo = [] }))
        (route-data_frame (payload l) (until_nul-until_nul (cut l)))
  where
    between : World
    between = record { stdin = ls; fifo = data_frame (payload l); log = log; signals = signals }

    writer : (run writer_os (Writer.round rest 3) (quiet (l ∷ ls) log signals)).1 ≡ between
    writer =
        ap (λ (r : Outcome (Unit {0}) × World). r.1)
          (run-writer_round rest (quiet (l ∷ ls) log signals) (terminal-ne-nil l ls some_input))
        ∙ sent-quiet l ls log signals short

-- What is typed, one line after the other: no line is empty, and each fits one `read`.
abbrev pub ShortLines : List Bytes → Type 0
ShortLines [] = Unit
ShortLines (l ∷ ls) = (l ≢ []) × (length l ≤ 20) × ShortLines ls

-- From an empty FIFO, with at least one byte behind the arrays of the Reader: if each line that
-- waits at the terminal has 1 to 20 bytes, then, with one pass of the Writer and one of the Reader
-- for each line, the log gets the line of each input in order, the FIFO is empty again, and the
-- other file is left alone.
pub turns-lines :
    (rest : Bytes) (x : ℕ) (more : Bytes) (ls : List Bytes) (log signals : File)
    → ShortLines ls
    → turns rest (x ∷ more) (length ls) (quiet ls log signals) ≡ quiet [] (log_lines log ls) signals
unfolding turns
turns-lines rest x more [] log signals h = refl
turns-lines rest x more (l ∷ ls) log signals h =
    ap (turns rest (x ∷ more) (length ls)) (turn-line rest x more l ls log signals h.0 h.1)
    ∙ turns-lines rest x more ls (log_line log l) signals h.2

-- From an empty FIFO, with at least one byte behind the arrays of the handler and of the Reader:
-- the handler at a signal, and then a pass of the Reader, write a line with the digit of the signal
-- to the other file, at its position, and leave the log, the typed lines and the empty FIFO as they
-- were.
pub signal_delivered :
    (x : ℕ) (more slack : Bytes) (y : ℕ) (sig : Signal) (ls : List Bytes) (log signals : File)
    → run reader_os
        (Reader.round (y ∷ slack) opened)
        (run writer_os (Writer.sigusr_handler (x ∷ more) 3 sig) (quiet ls log signals)).1
      ≡ (running tt, quiet ls log (write_file signals (digit sig ∷ b'\n' ∷ [])))
signal_delivered x more slack y sig ls log signals =
    ap (λ (r : Outcome (Unit {0}) × World). run reader_os (Reader.round (y ∷ slack) opened) r.1)
      (run-handler x more sig (quiet ls log signals))
    ∙ run-reader_round y slack between (cc)
    ∙ ap (λ (w : World). (running tt, w)) alone
  where
    between : World
    between = record { stdin = ls; fifo = sign_frame sig; log = log; signals = signals }

    alone : received between ≡ quiet ls log (write_file signals (digit sig ∷ b'\n' ∷ []))
    alone =
        received-alone between (sign_frame sig) (omega arith) refl
        ∙ ap (λ r. delivered r (record between { fifo = [] })) (route-sign_frame sig)
