-- ===== src/TpCorregido/Link/Backlog.antt =====
-- material-clases/TP_Corregido/reader.c: several messages in the FIFO when the Reader comes to read.
use cese_sopg_github_io.Common.{
  ℕ, ◌≤◌, ◌≡◌, refl, ap, ap₂, ◌∙◌, List, [], ◌∷◌, ◌++◌, length, arith, take-append_length,
  drop-append_length,
}
use cese_sopg_github_io.Memory.{Bytes, until_nul}
use cese_sopg_github_io.Posix.{running, run, resume, run->>=}
use cese_sopg_github_io.TpCorregido.Kernel.{World, File, write_file, reader_os, opened}
use cese_sopg_github_io.TpCorregido.Protocol.{data_frame, route, route-data_frame, route-merged}
use cese_sopg_github_io.TpCorregido.Reader
use cese_sopg_github_io.TpCorregido.Link.Steps.{received, delivered, run-reader_round}
use cese_sopg_github_io.TpCorregido.Link.Lockstep.{quiet, received-alone}

-- Messages one behind the other, as a pipe keeps them.
abbrev pub frames : List Bytes → Bytes
frames [] = []
frames (p ∷ ps) = data_frame p ++ frames ps

abbrev pub waiting : Bytes → List Bytes → File → File → World
waiting fifo ls log signals = record { stdin = ls; fifo = fifo; log = log; signals = signals }

-- The log with one line for each text.
abbrev pub log_texts : File → List Bytes → File
log_texts f [] = f
log_texts f (p ∷ ps) = log_texts (write_file f (p ++ (b'\n' ∷ []))) ps

-- Texts of 20 bytes, none of them a NUL.
abbrev pub FullTexts : List Bytes → Type 0
FullTexts [] = Unit
FullTexts (p ∷ ps) = (length p ≡ 20) × (until_nul p ≡ p) × FullTexts ps

received-first :
    (p m : Bytes) (ls : List Bytes) (log signals : File)
    → length p ≡ 20
    → until_nul p ≡ p
    → received (waiting (data_frame p ++ m) ls log signals)
      ≡ waiting m ls (write_file log (p ++ (b'\n' ∷ []))) signals
received-first p m ls log signals full clean =
    ap₂ (λ a b. delivered (route a) (waiting b ls log signals))
      (take-append_length 26 (data_frame p) m (omega arith))
      (drop-append_length 26 (data_frame p) m (omega arith))
    ∙ ap (λ r. delivered r (waiting m ls log signals)) (route-data_frame p clean)

module _ (x : ℕ) (more : Bytes) where
  -- Messages with texts of exactly 20 bytes, none a NUL, keep apart in the FIFO: with at least one
  -- byte behind the arrays of the Reader, however many wait, as many passes of the Reader write the
  -- line of each, in order, and empty the FIFO.
  pub loop-FullTexts :
      (ps : List Bytes) (ls : List Bytes) (log signals : File)
      → FullTexts ps
      → run reader_os
          (Reader.loop (x ∷ more) (length ps) opened)
          (waiting (frames ps) ls log signals)
        ≡ (running tt, quiet ls (log_texts log ps) signals)
  unfolding Reader.loop run
  loop-FullTexts [] ls log signals h = refl
  loop-FullTexts (p ∷ ps) ls log signals h =
      run->>= reader_os (Reader.round (x ∷ more) opened)
        (λ _. Reader.loop (x ∷ more) (length ps) opened) (waiting (frames (p ∷ ps)) ls log signals)
      ∙ ap (resume reader_os (λ _. Reader.loop (x ∷ more) (length ps) opened))
          (run-reader_round x more (waiting (frames (p ∷ ps)) ls log signals) cc)
      ∙ ap (λ w. run reader_os (Reader.loop (x ∷ more) (length ps) opened) w)
          (received-first p (frames ps) ls log signals h.0 h.1)
      ∙ loop-FullTexts ps ls (write_file log (p ++ (b'\n' ∷ []))) signals h.2

  -- A shorter message does not keep apart: if its text has no NUL and it makes up at most 26 bytes
  -- with all that waits behind it, one pass of the Reader, with at least one byte behind its
  -- arrays, puts what waits, up to a NUL, into the line of the text, and nothing of it reaches
  -- another file, be it a signal or a text.
  pub round-merges :
      (p m : Bytes) (ls : List Bytes) (log signals : File)
      → until_nul p ≡ p
      → length (data_frame p ++ m) ≤ 26
      → run reader_os (Reader.round (x ∷ more) opened) (waiting (data_frame p ++ m) ls log signals)
        ≡ (running tt, quiet ls (write_file log ((p ++ until_nul m) ++ (b'\n' ∷ []))) signals)
  round-merges p m ls log signals clean short =
      run-reader_round x more (waiting (data_frame p ++ m) ls log signals) (cc)
      ∙ ap (λ (w : World). (running tt, w)) alone
    where
      alone :
          received (waiting (data_frame p ++ m) ls log signals)
          ≡ quiet ls (write_file log ((p ++ until_nul m) ++ (b'\n' ∷ []))) signals
      alone =
          received-alone (waiting (data_frame p ++ m) ls log signals) (data_frame p ++ m) short refl
          ∙ ap (λ r. delivered r (quiet ls log signals)) (route-merged p m clean)
