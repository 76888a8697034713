-- ===== src/Tp/Writer.antt =====
-- material-clases/TP/writer.c, the first version of TP_Corregido/writer.c: its `main` installs each
-- handler by itself, and its handler of SIGUSR1 and SIGUSR2 calls `printf`. The arrays and the text
-- that builds the messages are those of TP_Corregido.
use cese_sopg_github_io.Common.{ℕ, zero, suc, ◌-◌, [], ◌∷◌, if◌then◌else◌}
use cese_sopg_github_io.Memory.{Bytes, c_string}
use cese_sopg_github_io.Posix.{
  Signal, sigint, sigpipe, sigusr1, sigusr2, Handler, num, str, fifo_node, wronly, Ret, fail, ok,
  Prog, done, exit, ◌>>=◌, ◌>>◌, lift, exit_success, exit_failure, stdin_fileno, die_if, failed,
}
use cese_sopg_github_io.TpCorregido.Writer.Buffers.{fifo_msg_size, data_message, sign_message}
use cese_sopg_github_io.Posix.Sys.{
  getpid, printf, perror, mknod, open_file, close, read, write_stdout, sigaction,
}
use cese_sopg_github_io.TpCorregido.Writer.{fifo_name, mknod_refused, or_die, write_string}

-- `main` up to its loop; the result is `fifo_fd`.
unfoldable pub setup : Prog ℕ
setup = do
  pid ← getpid
  printf "Writer is running. PID: %d\n" (num pid ∷ [])
  write_stdout "Creating FIFO_NAME...\n"
  made ← mknod fifo_name fifo_node
  die_if (mknod_refused made) "mknod(FIFO_NAME)"
  write_stdout "FIFO_NAME was created\n"
  write_stdout "FIFO_NAME is opening\n"
  opened ← open_file fifo_name wronly
  fifo_fd ← or_die opened "open(FIFO_NAME)"
  write_stdout "Configuring SIGNATIONS...\n"
  ret ← sigaction sigusr1 Handler.sigusr_handler
  die_if (failed ret) "Sigaction (SIGUSR1)"
  ret ← sigaction sigusr2 Handler.sigusr_handler
  die_if (failed ret) "Sigaction (SIGUSR2)"
  ret ← sigaction sigint Handler.sig_handler
  die_if (failed ret) "Sigaction (SIGINT)"
  ret ← sigaction sigpipe Handler.sig_handler
  die_if (failed ret) "Sigaction (SIGPIPE)"
  write_stdout "Waiting for DATA (20 characters max), SIGUSR1 or SIGUSR2...\n"
  done fifo_fd

-- The end of input: `close`, and the exit status that it decides.
abbrev pub on_eof : ℕ → Prog (Unit {0})
on_eof fifo_fd = do
  write_stdout "\nWriter: -EOF- . Closing FIFO_NAME...\n"
  ret ← close fifo_fd
  if failed ret
      then (perror "close(FIFO_NAME)" >> exit exit_failure)
      else (write_stdout "Writer: FIFO_NAME close...\n" >> exit exit_success)

-- What happens after the `write` into the FIFO.
abbrev pub on_written : Bytes → Ret ℕ → Prog (Unit {0})
on_written aux (fail e) = perror "write(FIFO_NAME)" >> exit exit_failure
on_written aux (ok n) = do
  text ← lift (c_string aux)
  printf "-->>Writer: %ld bytes wroten in FIFO_NAME: \"%s\"\n" (num n ∷ str text ∷ [])

-- After the `write` of the handler: `strsignal` is the C library's.
abbrev pub on_signal_written : (Signal → Bytes) → Signal → Bytes → Ret ℕ → Prog (Unit {0})
on_signal_written strsignal sig aux (fail e) =
    perror "write(FIFO_NAME)sigusr_handler" >> exit exit_failure
on_signal_written strsignal sig aux (ok n) = do
  text ← lift (c_string aux)
  printf "-->>Writer: %ld bytes wroten in FIFO_NAME from sigusr_handler due to %s: \"%s\"\n"
      (num n ∷ str (strsignal sig) ∷ str text ∷ [])

module _ (rest : Bytes) where
  -- The bytes that `read` brought: cut, put behind the header, and sent.
  unfoldable pub on_input : ℕ → Bytes → Prog (Unit {0})
  on_input fifo_fd bytes = do
    aux ← lift (data_message rest bytes)
    ret ← write_string fifo_fd aux
    on_written aux ret

  abbrev pub after_read : ℕ → Ret Bytes → Prog (Unit {0})
  after_read fifo_fd (fail e) = perror "read(STDIN_FILENO)" >> exit exit_failure
  after_read fifo_fd (ok []) = on_eof fifo_fd
  after_read fifo_fd (ok (b ∷ bs)) = on_input fifo_fd (b ∷ bs)

  -- One pass of `while (1)`.
  unfoldable pub round : ℕ → Prog (Unit {0})
  round fifo_fd = do ret ← read stdin_fileno (fifo_msg_size - 1); after_read fifo_fd ret

  -- The first `n` passes; `done` means that the loop goes on.
  unfoldable pub loop : ℕ → ℕ → Prog (Unit {0})
  loop zero fifo_fd = done tt
  loop (suc n) fifo_fd = round fifo_fd >> loop n fifo_fd

  unfoldable pub main : ℕ → Prog (Unit {0})
  main n = setup >>= loop n

  -- The handler of SIGUSR1 and SIGUSR2.
  unfoldable pub sigusr_handler : (Signal → Bytes) → ℕ → Signal → Prog (Unit {0})
  sigusr_handler strsignal fifo_fd sig = do
    aux_handler ← lift (sign_message rest sig)
    ret ← write_string fifo_fd aux_handler
    on_signal_written strsignal sig aux_handler ret

-- The handler of SIGINT and SIGPIPE.
unfoldable pub sig_handler : Signal → Prog (Unit {0})
sig_handler sigint = do
  write_stdout "\n\nCtrl+C pressed. SIGINT handler executing...\n"
  exit exit_failure
sig_handler sigpipe = write_stdout "\nSIGPIPE received...\n" >> exit exit_failure
sig_handler _ = write_stdout "\nANOTHER SIGNAL\n" >> exit exit_failure
