-- ===== src/TpCorregido/Link/Ends.antt =====
-- Whole runs of the Writer and of the Reader, from the first call of `main` to `exit`.
use cese_sopg_github_io.Common.{
  ℕ, zero, suc, ◌*◌, ◌≤◌, ◌≡◌, refl, ap, sym, ◌∙◌, List, [], ◌∷◌, ◌++◌, append_assoc, append-nil,
  map, length, take, drop, arith, take_of_le, drop_of_le, length-drop,
}
use cese_sopg_github_io.Memory.{Bytes}
use cese_sopg_github_io.Posix.{running, exited, run, resume, run->>=}
use cese_sopg_github_io.TpCorregido.Kernel.{World, File, write_file, writer_os, reader_os, opened}
use cese_sopg_github_io.TpCorregido.Protocol.{
  payload, data_frame, Route, to_log, to_signals, unknown, route,
}
use cese_sopg_github_io.TpCorregido.Writer
use cese_sopg_github_io.TpCorregido.Reader
use cese_sopg_github_io.TpCorregido.Link.Steps.{sent, delivered, run-writer_round, run-reader_round}
use cese_sopg_github_io.TpCorregido.Link.Lockstep.{ShortLines, terminal-ne-nil, quiet}
use cese_sopg_github_io.TpCorregido.Link.Backlog.{frames, waiting}

sent-waiting :
    (fifo l : Bytes) (ls : List Bytes) (log signals : File)
    → length l ≤ 20
    → sent (waiting fifo (l ∷ ls) log signals)
      ≡ waiting (fifo ++ data_frame (payload l)) ls log signals
sent-waiting fifo l ls log signals short = rw (take_of_le 20 l short, drop_of_le 20 l short) refl

writer_setup : (w : World) → run writer_os Writer.setup w ≡ (running 3, w)
unfolding run Writer.setup
writer_setup w = refl

module _ (rest : Bytes) (log signals : File) where
  writer_loop-ends :
      (ls : List Bytes) (fifo : Bytes)
      → ShortLines ls
      → run writer_os (Writer.loop rest (suc (length ls)) 3) (waiting fifo ls log signals)
        ≡ (exited 0, waiting (fifo ++ frames (map payload ls)) [] log signals)
  unfolding run Writer.loop Writer.round
  writer_loop-ends [] fifo h =
      ap (λ f. (exited 0, waiting f [] log signals)) (sym (append-nil fifo))
  writer_loop-ends (l ∷ ls) fifo h =
      run->>= writer_os (Writer.round rest 3) (λ _. Writer.loop rest (suc (length ls)) 3)
        (waiting fifo (l ∷ ls) log signals)
      ∙ ap (resume writer_os (λ _. Writer.loop rest (suc (length ls)) 3))
          (run-writer_round rest (waiting fifo (l ∷ ls) log signals) (terminal-ne-nil l ls h.0))
      ∙ ap (run writer_os (Writer.loop rest (suc (length ls)) 3))
          (sent-waiting fifo l ls log signals h.1)
      ∙ writer_loop-ends ls (fifo ++ data_frame (payload l)) h.2
      ∙ ap (λ f. (exited 0, waiting f [] log signals))
          (append_assoc fifo (data_frame (payload l)) (frames (map payload ls)))

  -- If each line that is typed has 1 to 20 bytes, the Writer, whatever lies behind its arrays, has sent
  -- one frame for each line, in order, behind what was in the FIFO, and exits with success in the
  -- pass that finds the end of the input.
  pub writer_main-ends :
      (ls : List Bytes) (fifo : Bytes)
      → ShortLines ls
      → run writer_os (Writer.main rest (suc (length ls))) (waiting fifo ls log signals)
        ≡ (exited 0, waiting (fifo ++ frames (map payload ls)) [] log signals)
  unfolding Writer.main
  writer_main-ends ls fifo h =
      run->>= writer_os Writer.setup (Writer.loop rest (suc (length ls)))
        (waiting fifo ls log signals)
      ∙ ap (resume writer_os (Writer.loop rest (suc (length ls))))
          (writer_setup (waiting fifo ls log signals))
      ∙ writer_loop-ends ls fifo h

-- What the calls of `read` bring of the FIFO, in order; `n` bounds their number.
abbrev pub chunks : ℕ → Bytes → List Bytes
chunks zero bytes = []
chunks (suc n) [] = []
chunks (suc n) (b ∷ bytes) = take 26 (b ∷ bytes) ∷ chunks n (drop 26 (b ∷ bytes))

-- The two files after a message.
abbrev pub log_after : File → Route → File
log_after f (to_log text) = write_file f (text ++ (b'\n' ∷ []))
log_after f _ = f

abbrev pub signals_after : File → Route → File
signals_after f (to_signals text) = write_file f (text ++ (b'\n' ∷ []))
signals_after f _ = f

abbrev pub log_all : File → List Bytes → File
log_all f [] = f
log_all f (c ∷ cs) = log_all (log_after f (route c)) cs

abbrev pub signals_all : File → List Bytes → File
signals_all f [] = f
signals_all f (c ∷ cs) = signals_all (signals_after f (route c)) cs

delivered-waiting :
    (r : Route) (fifo : Bytes) (ls : List Bytes) (log signals : File)
    → delivered r (waiting fifo ls log signals)
      ≡ waiting fifo ls (log_after log r) (signals_after signals r)
delivered-waiting (to_log text) fifo ls log signals = refl
delivered-waiting (to_signals text) fifo ls log signals = refl
delivered-waiting unknown fifo ls log signals = refl

reader_setup : (w : World) → run reader_os Reader.setup w ≡ (running opened, w)
unfolding run Reader.setup
reader_setup w = refl

module _ (x : ℕ) (more : Bytes) (ls : List Bytes) where
  reader_loop-ends :
      (n : ℕ) (fifo : Bytes) (log signals : File)
      → length fifo ≤ 26 * n
      → run reader_os
          (Reader.loop (x ∷ more) (suc (length (chunks n fifo))) opened)
          (waiting fifo ls log signals)
        ≡ (exited 0, quiet ls (log_all log (chunks n fifo)) (signals_all signals (chunks n fifo)))
  unfolding run Reader.loop Reader.round
  reader_loop-ends zero [] log signals h = refl
  reader_loop-ends zero (b ∷ fifo) log signals h = absurd (omega arith)
  reader_loop-ends (suc n) [] log signals h = refl
  reader_loop-ends (suc n) (b ∷ fifo) log signals h =
      let behind = drop 26 (b ∷ fifo) in
      let first = route (take 26 (b ∷ fifo)) in
      let left = suc (length (chunks n behind)) in
      run->>= reader_os (Reader.round (x ∷ more) opened) (λ _. Reader.loop (x ∷ more) left opened)
        (waiting (b ∷ fifo) ls log signals)
      ∙ ap (resume reader_os (λ _. Reader.loop (x ∷ more) left opened))
          (run-reader_round x more (waiting (b ∷ fifo) ls log signals) cc)
      ∙ ap (run reader_os (Reader.loop (x ∷ more) left opened))
          (delivered-waiting first behind ls log signals)
      ∙ reader_loop-ends n behind (log_after log first) (signals_after signals first)
          (omega (arith, length-drop 26 (b ∷ fifo)))

  -- With at least one byte behind its arrays, and at most `26 * n` bytes in a FIFO whose writers have closed
  -- it, the Reader takes the bytes in pieces of 26, delivers each piece as one message, in order,
  -- and exits with success in the pass that finds the end of the FIFO.
  pub reader_main-ends :
      (n : ℕ) (fifo : Bytes) (log signals : File)
      → length fifo ≤ 26 * n
      → run reader_os
          (Reader.main (x ∷ more) (suc (length (chunks n fifo))))
          (waiting fifo ls log signals)
        ≡ (exited 0, quiet ls (log_all log (chunks n fifo)) (signals_all signals (chunks n fifo)))
  unfolding Reader.main
  reader_main-ends n fifo log signals h =
      run->>= reader_os Reader.setup (Reader.loop (x ∷ more) (suc (length (chunks n fifo))))
        (waiting fifo ls log signals)
      ∙ ap (resume reader_os (Reader.loop (x ∷ more) (suc (length (chunks n fifo)))))
          (reader_setup (waiting fifo ls log signals))
      ∙ reader_loop-ends n fifo log signals h
