-- ===== src/TpCorregido/Link/Pipeline.antt =====
-- The whole Writer, and then the whole Reader on what it has left in the FIFO.
use cese_sopg_github_io.Common.{
  ℕ, suc, ◌*◌, ◌≤◌, ◌≡◌, refl, ap, ap₂, sym, ◌∙◌, List, [], ◌∷◌, ◌++◌, map, length, arith,
  take-append_length, drop-append_length, length-append,
}
use cese_sopg_github_io.Memory.{Bytes}
use cese_sopg_github_io.Posix.{Outcome, exited, run}
use cese_sopg_github_io.TpCorregido.Kernel.{World, File, write_file, writer_os, reader_os}
use cese_sopg_github_io.TpCorregido.Protocol.{payload, data_frame, route-data_frame}
use cese_sopg_github_io.TpCorregido.Writer
use cese_sopg_github_io.TpCorregido.Reader
use cese_sopg_github_io.TpCorregido.Link.Lockstep.{ShortLines, quiet}
use cese_sopg_github_io.TpCorregido.Link.Backlog.{frames, waiting, FullTexts, log_texts}
use cese_sopg_github_io.TpCorregido.Link.Split.{payload-full}
use cese_sopg_github_io.TpCorregido.Link.Ends.{
  chunks, log_after, signals_after, log_all, signals_all, writer_main-ends, reader_main-ends,
}

full-ShortLines : (ls : List Bytes) → FullTexts ls → ShortLines ls
full-ShortLines [] h = h
full-ShortLines ([] ∷ ls) h = absurd (omega (arith, h.0))
full-ShortLines ((b ∷ l) ∷ ls) h = ((cc), omega (arith, h.0), full-ShortLines ls h.2)

payload-FullTexts : (ls : List Bytes) → FullTexts ls → map payload ls ≡ ls
payload-FullTexts [] h = refl
payload-FullTexts (l ∷ ls) h =
    ap₂ (λ (a : Bytes) b. a ∷ b) (payload-full l h.0 h.1) (payload-FullTexts ls h.2)

length-frames : (ls : List Bytes) → FullTexts ls → length (frames ls) ≤ 26 * length ls
length-frames [] h = omega arith
length-frames (l ∷ ls) h =
    omega (arith, length-frames ls h.2, length-append (data_frame l) (frames ls), h.0)

-- The Reader takes the frames of full texts one by one.
chunks-frames :
    (ls : List Bytes) → FullTexts ls → chunks (length ls) (frames ls) ≡ map data_frame ls
chunks-frames [] h = refl
chunks-frames (l ∷ ls) h =
    ap₂ (λ (a : Bytes) b. a ∷ chunks (length ls) b)
      (take-append_length 26 (data_frame l) (frames ls) (omega (arith, h.0)))
      (drop-append_length 26 (data_frame l) (frames ls) (omega (arith, h.0)))
    ∙ ap (λ cs. data_frame l ∷ cs) (chunks-frames ls h.2)

log_all-frames :
    (ls : List Bytes) (log : File)
    → FullTexts ls
    → log_all log (map data_frame ls) ≡ log_texts log ls
log_all-frames [] log h = refl
log_all-frames (l ∷ ls) log h =
    ap (λ r. log_all (log_after log r) (map data_frame ls)) (route-data_frame l h.1)
    ∙ log_all-frames ls (write_file log (l ++ (b'\n' ∷ []))) h.2

signals_all-frames :
    (ls : List Bytes) (signals : File)
    → FullTexts ls
    → signals_all signals (map data_frame ls) ≡ signals
signals_all-frames [] signals h = refl
signals_all-frames (l ∷ ls) signals h =
    ap (λ r. signals_all (signals_after signals r) (map data_frame ls)) (route-data_frame l h.1)
    ∙ signals_all-frames ls signals h.2

length-map_frames : (ls : List Bytes) → length (map data_frame ls) ≡ length ls
length-map_frames [] = refl
length-map_frames (l ∷ ls) = ap suc (length-map_frames ls)

module _ (x : ℕ) (more : Bytes) (log signals : File) where
  reads-frames :
      (ls : List Bytes)
      → FullTexts ls
      → run reader_os
          (Reader.main (x ∷ more) (suc (length ls)))
          (waiting (frames ls) [] log signals)
        ≡ (exited 0, quiet [] (log_texts log ls) signals)
  reads-frames ls h =
      let count : length ls ≡ length (chunks (length ls) (frames ls)) =
        sym (length-map_frames ls) ∙ ap length (sym (chunks-frames ls h)) in
      ap (λ k. run reader_os (Reader.main (x ∷ more) (suc k)) (waiting (frames ls) [] log signals))
        count
      ∙ reader_main-ends x more [] (length ls) (frames ls) log signals (length-frames ls h)
      ∙ ap (λ cs. (exited 0, quiet [] (log_all log cs) (signals_all signals cs)))
          (chunks-frames ls h)
      ∙ ap₂ (λ a b. (exited 0, quiet [] a b)) (log_all-frames ls log h)
          (signals_all-frames ls signals h)

  -- If each `read` from the terminal brings exactly 20 bytes, none a NUL, and the messages, of 26 bytes each,
  -- are together no more than the 65536 bytes that the FIFO holds, then the Writer, run to its exit from an
  -- empty FIFO, exits with success, and the Reader, run to its exit afterwards with at least one byte behind
  -- its arrays, exits with success too, and the log has one line for each, in order; the other file is left
  -- alone.
  pub writer_reader-ends :
      (rest : Bytes) (ls : List Bytes)
      → FullTexts ls
      → 26 * length ls ≤ 65536
      → ((run writer_os (Writer.main rest (suc (length ls))) (waiting [] ls log signals)).0
          ≡ exited 0)
        × (run reader_os
              (Reader.main (x ∷ more) (suc (length ls)))
              (run writer_os (Writer.main rest (suc (length ls))) (waiting [] ls log signals)).1
            ≡ (exited 0, quiet [] (log_texts log ls) signals))
  writer_reader-ends rest ls h fits =
      let written = writer_main-ends rest log signals ls [] (full-ShortLines ls h) in
      (
        ap (λ (r : Outcome (Unit {0}) × World). r.0) written,
        ap
              (λ (r : Outcome (Unit {0}) × World).
                run reader_os (Reader.main (x ∷ more) (suc (length ls))) r.1)
              written
            ∙ ap
                (λ ps.
                  run reader_os (Reader.main (x ∷ more) (suc (length ls)))
                    (waiting (frames ps) [] log signals))
                (payload-FullTexts ls h)
            ∙ reads-frames ls h,
      )
