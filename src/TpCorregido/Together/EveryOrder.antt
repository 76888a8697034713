-- ===== src/TpCorregido/Together/EveryOrder.antt =====
-- material-clases/TP_Corregido: whole runs of the two programs at once, from their starts to their exits.
use cese_sopg_github_io.Common.{
  ◌∙◌, ap₂, le→leb, ◌+◌, ℕ, suc, ◌≡◌, refl, ap, List, [], ◌∷◌, ◌++◌, length, arith, drop, take,
  take_of_le, drop_of_le,
}
use cese_sopg_github_io.Memory.{Bytes, until_nul}
use cese_sopg_github_io.Posix.{Prog, exit, ◌>>=◌, ◌>>◌, ok}
use cese_sopg_github_io.Posix.Sys.{write}
use cese_sopg_github_io.TpCorregido.Spec.{on_sent, deliver_to}
use cese_sopg_github_io.Processes.{Ends, halted, settle}
use cese_sopg_github_io.Processes.Orders.{
  only_left, only_right, first_right, settle_left, settle_right,
}
use cese_sopg_github_io.TpCorregido.Kernel.{put_back, File, write_file, opened}
use cese_sopg_github_io.TpCorregido.Protocol.{payload, data_frame, route-data_frame}
use cese_sopg_github_io.TpCorregido.Writer
use cese_sopg_github_io.TpCorregido.Reader
use cese_sopg_github_io.TpCorregido.Writer.Refine.{loop_text, writer_main-refines}
use cese_sopg_github_io.TpCorregido.Reader.Loop.{
  loop_message, after_read_message, reader_main-refines,
}
use cese_sopg_github_io.TpCorregido.Link.Backlog.{FullTexts, log_texts}
use cese_sopg_github_io.TpCorregido.Link.Split.{payload-full}
use cese_sopg_github_io.TpCorregido.Together.Kernels.{
  Fifo, not_yet, present, Logs, writer_inner, writer_outer, reader_inner, reader_outer, writer_side,
  reader_side,
}
use cese_sopg_github_io.TpCorregido.Together.Reading.{reading-Independent}

abbrev pub logs : File → File → Logs
logs log signals = record { log = log; signals = signals }

abbrev fifo : Bytes → Fifo
fifo bytes = record { bytes = bytes; writers = present; readers = present }

-- Both programs have ended with success, the FIFO is empty, and the log is `log`.
abbrev pub AllWritten :
    File → File → Prog (Unit {0}) → List Bytes → Prog (Unit {0}) → Logs → Fifo → Type 0
AllWritten log signals p ls q r m =
    (p ≡ exit 0) × (q ≡ exit 0) × (ls ≡ []) × (r ≡ logs log signals) × (m.bytes ≡ [])

module _ (final : File) (signals : File) where
  -- Both programs in their loops, each as far as it goes alone.
  abbrev Looping : ℕ → ℕ → List Bytes → File → Bytes → Type 0
  Looping n k ls log bytes =
      Ends writer_side reader_side (AllWritten final signals)
        (settle writer_inner (loop_text n 3) ls).0 (settle writer_inner (loop_text n 3) ls).1
        (settle reader_inner (loop_message k opened) (logs log signals)).0
        (settle reader_inner (loop_message k opened) (logs log signals)).1 (fifo bytes)

  at_end : Looping 1 1 [] final []
  unfolding loop_text loop_message
  at_end = only_left refl refl (
      settle_left writer_inner writer_outer _ _ (
        only_right refl refl (
          settle_right reader_inner reader_outer _ _ (
            only_right refl refl (
              settle_right reader_inner reader_outer _ _
                (halted refl refl (refl, refl, refl, refl, refl)))))))

  -- The Writer is at the `write` of a frame, and the Reader waits in its `read`.
  one_frame :
      (n k : ℕ) (frame : Bytes) (ls : List Bytes) (log : File)
      → length frame ≡ 26
      → Ends writer_side reader_side
          (AllWritten final signals)
          (settle writer_inner (loop_text n 3) ls).0
          (settle writer_inner (loop_text n 3) ls).1
          (settle reader_inner
            (after_read_message opened (ok frame) >> loop_message (suc k) opened)
            (logs log signals)).0
          (settle reader_inner
            (after_read_message opened (ok frame) >> loop_message (suc k) opened)
            (logs log signals)).1
          (fifo [])
      → Ends writer_side reader_side
          (AllWritten final signals)
          (write 3 frame >>= on_sent frame >> loop_text n 3)
          ls
          (settle reader_inner (loop_message (suc (suc k)) opened) (logs log signals)).0
          (settle reader_inner (loop_message (suc (suc k)) opened) (logs log signals)).1
          (fifo [])
  unfolding loop_message
  one_frame n k frame ls log size after =
      only_left {l' = ls} {a = ok (length frame)} {m' = fifo frame}
        (rw (le→leb (0 + length frame) 65536 (omega arith)) refl) refl
        (settle_left writer_inner writer_outer _ _ (
          first_right (reading-Independent frame (logs log signals))
            (omega arith, take_of_le 26 frame (omega arith))
            (settle_right reader_inner reader_outer _ _
              (rw (take_of_le 26 frame (omega arith), drop_of_le 26 frame (omega arith)) after))))

  sends :
      (n : ℕ) (b : ℕ) (l : Bytes) (ls : List Bytes)
      → length (b ∷ l) ≡ 20
      → until_nul (b ∷ l) ≡ b ∷ l
      → settle writer_inner (loop_text (suc n) 3) ((b ∷ l) ∷ ls)
        ≡ (write 3 (data_frame (b ∷ l)) >>= on_sent (data_frame (b ∷ l)) >> loop_text n 3, ls)
  unfolding loop_text
  sends n b l ls full clean =
      ap
        (λ (s : Bytes × List Bytes).
          (write 3 (data_frame s.0) >>= on_sent (data_frame s.0) >> loop_text n 3, s.1))
        (ap₂ (λ (t : Bytes) (r : List Bytes). (t, r)) text left)
    where
      text : payload (take 20 (take 20 (b ∷ l))) ≡ b ∷ l
      text =
          let whole : take 20 (b ∷ l) ≡ b ∷ l = take_of_le 20 (b ∷ l) (omega arith) in
          ap payload (ap (take 20) whole ∙ whole) ∙ payload-full (b ∷ l) full clean

      left : put_back (drop 20 (b ∷ l)) ls ≡ ls
      left = rw (drop_of_le 20 (b ∷ l) (omega arith)) refl

  logs_line :
      (k : ℕ) (p : Bytes) (log : File)
      → until_nul p ≡ p
      → settle reader_inner
          (after_read_message opened (ok (data_frame p)) >> loop_message k opened)
          (logs log signals)
        ≡ settle reader_inner
            (loop_message k opened)
            (logs (write_file log (p ++ (b'\n' ∷ []))) signals)
  logs_line k p log clean =
      ap (λ r. settle reader_inner (deliver_to 4 5 r >> loop_message k opened) (logs log signals))
        (route-data_frame p clean)

  turn :
      (n k : ℕ) (p : Bytes) (ls : List Bytes) (log : File)
      → length p ≡ 20
      → until_nul p ≡ p
      → Looping n (suc k) ls (write_file log (p ++ (b'\n' ∷ []))) []
      → Looping (suc n) (suc (suc k)) (p ∷ ls) log []
  turn n k [] ls log full clean after = absurd (omega arith)
  turn n k (b ∷ l) ls log full clean after = rw (sends n b l ls full clean) (
      one_frame n k (data_frame (b ∷ l)) ls log (omega arith)
        (rw (logs_line (suc k) (b ∷ l) log clean) after))

  all_turns :
      (ls : List Bytes) (log : File)
      → FullTexts ls
      → log_texts log ls ≡ final
      → Looping (suc (length ls)) (suc (length ls)) ls log []
  all_turns [] log h e = rw e at_end
  all_turns (p ∷ ls) log h e =
      turn (suc (length ls)) (length ls) p ls log h.0 h.1
        (all_turns ls (write_file log (p ++ (b'\n' ∷ []))) h.2 e)

-- The FIFO, empty, before either program has opened it.
abbrev pub unopened : Fifo
unopened = record { bytes = []; writers = not_yet; readers = not_yet }

from_start :
    (final log signals : File) (n k : ℕ) (ls : List Bytes)
    → Looping final signals n (suc k) ls log []
    → Ends writer_side reader_side
        (AllWritten final signals)
        (Writer.setup >>= loop_text n)
        ls
        (Reader.setup >>= loop_message (suc k))
        (logs log signals)
        unopened
unfolding Writer.setup Reader.setup loop_message
from_start final log signals n k ls looping = settle_left writer_inner writer_outer _ _ (
    settle_right reader_inner reader_outer _ _ (
      only_right refl refl (
        settle_right reader_inner reader_outer _ _
          (only_left refl refl (settle_left writer_inner writer_outer _ _ looping)))))

-- The Writer and the Reader run at once from their starts, with an empty FIFO that exists, and each `read` of
-- the Writer from the terminal brings exactly 20 bytes, none a NUL. Then, with at least one byte behind the
-- arrays of the Reader, in every order in which the system calls of the two programs can follow one another no
-- program is left waiting: both exit with success, the log has one line for each text, in order, the other
-- file is as it was, and the FIFO is empty.
pub every_order-AllWritten :
    (x : ℕ) (more rest : Bytes) (ls : List Bytes) (log signals : File)
    → FullTexts ls
    → Ends writer_side reader_side
        (AllWritten (log_texts log ls) signals)
        (Writer.main rest (suc (length ls)))
        ls
        (Reader.main (x ∷ more) (suc (length ls)))
        (logs log signals)
        unopened
every_order-AllWritten x more rest ls log signals h =
    rw (writer_main-refines rest (suc (length ls)), reader_main-refines x more (suc (length ls)))
      (from_start (log_texts log ls) log signals (suc (length ls)) (length ls) ls
        (all_turns (log_texts log ls) signals ls log h refl))
