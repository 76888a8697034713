-- ===== src/Tp/Runs.antt =====
-- material-clases/TP: whole runs of the two programs, and the handler of the Writer.
use cese_sopg_github_io.Common.{
  ℕ, suc, ◌*◌, ◌≤◌, ◌≡◌, refl, ap, ap₂, ◌∙◌, List, [], ◌∷◌, ◌++◌, length,
}
use cese_sopg_github_io.Memory.{Bytes, c_string-terminated}
use cese_sopg_github_io.Posix.{
  Signal, Call, call-cong, Prog, Ret, fail, ok, num, str, exit, exit_failure, exited, run, ◌>>=◌,
  ◌>>◌,
}
use cese_sopg_github_io.Posix.Sys.{write, printf, perror}
use cese_sopg_github_io.TpCorregido.Kernel.{File, writer_os, reader_os}
use cese_sopg_github_io.TpCorregido.Protocol.{sign_frame}
use cese_sopg_github_io.TpCorregido.Writer.Messages.{sign_message-room}
use cese_sopg_github_io.TpCorregido.Writer.Refine.{write_string-text, clean-sign}
use cese_sopg_github_io.TpCorregido.Link.Lockstep.{quiet}
use cese_sopg_github_io.TpCorregido.Link.Backlog.{waiting, FullTexts, log_texts}
use cese_sopg_github_io.TpCorregido.Link.Pipeline.{writer_reader-ends}
use cese_sopg_github_io.Tp.Writer as FirstWriter
use cese_sopg_github_io.Tp.Reader as FirstReader
use cese_sopg_github_io.Tp.Same.{writer_same, reader_same}

-- If each `read` from the terminal brings exactly 20 bytes, none a NUL, and the FIFO holds the messages, then the first version of the
-- Writer, run to its exit from an empty FIFO, and the first version of the Reader, run to its exit
-- afterwards with at least one byte behind its arrays, exit with success, and the log has one line
-- for each, in order; the other file is left alone.
pub first_writer_reader-ends :
    (x : ℕ) (more rest : Bytes) (ls : List Bytes) (log signals : File)
    → FullTexts ls
    → 26 * length ls ≤ 65536
    → run reader_os
        (FirstReader.main (x ∷ more) (suc (length ls)))
        (run writer_os (FirstWriter.main rest (suc (length ls))) (waiting [] ls log signals)).1
      ≡ (exited 0, quiet [] (log_texts log ls) signals)
first_writer_reader-ends x more rest ls log signals h fits =
    ap₂ (λ (p q : Prog (Unit {0})). run reader_os p (run writer_os q (waiting [] ls log signals)).1)
      (reader_same (x ∷ more) (suc (length ls))) (writer_same rest (suc (length ls)))
    ∙ (writer_reader-ends x more log signals rest ls h fits).1

-- What the handler of the first version reports, without arrays.
abbrev pub report_signal : (Signal → Bytes) → Signal → Ret ℕ → Prog (Unit {0})
report_signal strsignal sig (fail e) = perror "write(FIFO_NAME)sigusr_handler" >> exit exit_failure
report_signal strsignal sig (ok n) =
    printf "-->>Writer: %ld bytes wroten in FIFO_NAME from sigusr_handler due to %s: \"%s\"\n"
      (num n ∷ str (strsignal sig) ∷ str (sign_frame sig) ∷ [])

reported :
    (strsignal : Signal → Bytes) (sig : Signal) (more : Bytes) (ret : Ret ℕ)
    → FirstWriter.on_signal_written strsignal sig (sign_frame sig ++ (0 ∷ more)) ret
      ≡ report_signal strsignal sig ret
reported strsignal sig more (fail e) = refl
reported strsignal sig more (ok n) =
    rw (c_string-terminated (sign_frame sig) more, clean-sign sig) refl

-- With at least one byte behind its array, the handler of SIGUSR1 and SIGUSR2 in the first version writes the
-- frame of the signal into the FIFO and reports the number of bytes, the signal's name and the frame,
-- or that the call failed.
pub first_handler-refines :
    (strsignal : Signal → Bytes) (x : ℕ) (more : Bytes) (fd : ℕ) (sig : Signal)
    → FirstWriter.sigusr_handler (x ∷ more) strsignal fd sig
      ≡ (write fd (sign_frame sig) >>= report_signal strsignal sig)
unfolding FirstWriter.sigusr_handler
first_handler-refines strsignal x more fd sig = rw (sign_message-room x more sig) (
    ap
      (λ (p : Prog (Ret ℕ)).
        p >>= FirstWriter.on_signal_written strsignal sig (sign_frame sig ++ (0 ∷ more)))
      (write_string-text fd (sign_frame sig) more (clean-sign sig))
    ∙ call-cong (Call.write fd (sign_frame sig)) (reported strsignal sig more))
