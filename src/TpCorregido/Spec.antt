-- ===== src/TpCorregido/Spec.antt =====
-- What the loops of TP_Corregido do, without arrays: the same calls, with the bytes that the
-- protocol names.
use cese_sopg_github_io.Common.{ℕ, String, [], ◌∷◌, ◌++◌, length}
use cese_sopg_github_io.Memory.{Bytes, until_nul}
use cese_sopg_github_io.Posix.{num, str, Ret, fail, ok, Prog, exit, ◌>>=◌, ◌>>◌, exit_failure}
use cese_sopg_github_io.Posix.Sys.{printf, perror, write, write_stdout}
use cese_sopg_github_io.TpCorregido.Protocol.{
  payload, data_frame, Route, to_log, to_signals, unknown, route,
}

abbrev pub on_sent : Bytes → Ret ℕ → Prog (Unit {0})
on_sent text (fail e) = perror "write(FIFO_NAME)" >> exit exit_failure
on_sent text (ok n) =
    printf "-->>Writer: %ld bytes wroten in FIFO_NAME: \"%s\"\n" (num n ∷ str text ∷ [])

-- One input line goes into the FIFO as one frame.
abbrev pub send_text : ℕ → Bytes → Prog (Unit {0})
send_text fd bytes = do
  ret ← write fd (data_frame (payload bytes))
  on_sent (data_frame (payload bytes)) ret

abbrev pub on_put : String → String → Bytes → Ret ℕ → Prog (Unit {0})
on_put error report text (fail e) = perror error >> exit exit_failure
on_put error report text (ok n) = printf report (num n ∷ str text ∷ [])

abbrev pub put_line : ℕ → String → String → Bytes → Prog (Unit {0})
put_line fd error report text = do
  ret ← write fd (text ++ (b'\n' ∷ []))
  on_put error report text ret

abbrev pub deliver_to : ℕ → ℕ → Route → Prog (Unit {0})
deliver_to log_fd sign_fd (to_log text) =
    put_line log_fd "write(FILE_NAME_DATA)"
      "-->>Reader: %ld bytes (counting '\\n') wroten in FILE_NAME_DATA: \"%s\"\n" text
deliver_to log_fd sign_fd (to_signals text) =
    put_line sign_fd "write(FILE_NAME_SIGN)"
      "-->>Reader: %ld bytes (counting '\\n') wroten in FILE_NAME_SIGN: \"%s\"\n" text
deliver_to log_fd sign_fd unknown =
    write_stdout "From check_and_write_msg: MSG doesn't match headers\n"

-- The bytes of one `read` are one message: it is shown, and goes to the file of its header.
abbrev pub deliver : ℕ → ℕ → Bytes → Prog (Unit {0})
deliver log_fd sign_fd bytes = do
  printf "-->>Reader: %ld bytes read in FIFO_NAME: \"%s\"\n"
      (num (length bytes) ∷ str (until_nul bytes) ∷ [])
  deliver_to log_fd sign_fd (route bytes)
