-- ===== src/Tp/Reader.antt =====
-- material-clases/TP/reader.c, the first version of TP_Corregido/reader.c: its `main` installs the
-- handler by itself. The arrays and the text that builds the lines are those of TP_Corregido.
use cese_sopg_github_io.Common.{ℕ, zero, suc, ◌-◌, [], ◌∷◌, if◌then◌else◌, length, String}
use cese_sopg_github_io.Memory.{Bytes, zeros, c_string, copy_at}
use cese_sopg_github_io.Posix.{
  Signal, sigint, Handler, num, str, fifo_node, regular_node, rdonly, wronly, Ret, fail, ok, Prog,
  done, exit, ◌>>=◌, ◌>>◌, lift, exit_success, exit_failure, die_if, failed,
}
use cese_sopg_github_io.TpCorregido.Reader.Buffers.{
  fifo_msg_to_send_size, data_header, sign_header, text_line, without_newline, has_header,
}
use cese_sopg_github_io.Posix.Sys.{
  getpid, printf, perror, mknod, open_file, close, read, write_stdout, sigaction,
}
use cese_sopg_github_io.TpCorregido.Writer.{fifo_name, mknod_refused, or_die, write_string}
use cese_sopg_github_io.TpCorregido.Reader.{
  Files, file_name_data, file_name_sign, or_die_unless_exists,
}

-- `main` up to its loop; the result are the global descriptors.
unfoldable pub setup : Prog Files
setup = do
  pid ← getpid
  printf "Reader is running. PID: %d\n" (num pid ∷ [])
  write_stdout "Creating FIFO_NAME...\n"
  made ← mknod fifo_name fifo_node
  die_if (mknod_refused made) "mknod(FIFO_NAME)"
  write_stdout "FIFO_NAME was created\n"
  write_stdout "FIFO_NAME is opening\n"
  fifo ← open_file fifo_name rdonly
  fifo_fd ← or_die fifo "open(FIFO_NAME)"
  write_stdout "Creating FILE_NAME_DATA...\n"
  made ← mknod file_name_data regular_node
  die_if (mknod_refused made) "mknod(FILE_NAME_DATA)"
  write_stdout "FILE_NAME_DATA was created\n"
  write_stdout "FILE_NAME_DATA is opening\n"
  log ← open_file file_name_data wronly
  log_fd ← or_die_unless_exists log "open(FILE_NAME_DATA)"
  write_stdout "Creating FILE_NAME_SIGN...\n"
  made ← mknod file_name_sign regular_node
  die_if (mknod_refused made) "mknod(FILE_NAME_SIGN)"
  write_stdout "FILE_NAME_SIGN was created\n"
  write_stdout "FILE_NAME_SIGN is opening\n"
  sign ← open_file file_name_sign wronly
  sign_fd ← or_die_unless_exists sign "open(FILE_NAME_SIGN)"
  write_stdout "Configuring SIGNATIONS...\n"
  ret ← sigaction sigint Handler.sig_handler
  die_if (failed ret) "Sigaction (SIGINT)"
  write_stdout "Waiting for INFO...\n"
  done (record { fifo_fd = fifo_fd; log_fd = log_fd; sign_fd = sign_fd })

-- What is done when `write` has put the text and its newline into the file.
abbrev pub on_written : String → String → Bytes → Ret ℕ → Prog (Unit {0})
on_written error report aux (fail e) = perror error >> exit exit_failure
on_written error report aux (ok n) = do
  aux' ← lift (without_newline aux)
  text ← lift (c_string aux')
  printf report (num n ∷ str text ∷ [])

abbrev pub on_eof : ℕ → Prog (Unit {0})
on_eof fifo_fd = do
  write_stdout "\nReader: -EOF- . Closing FIFO_NAME...\n"
  ret ← close fifo_fd
  if failed ret
      then (perror "close(FIFO_NAME)" >> exit exit_failure)
      else (write_stdout "Reader: FIFO_NAME close...\n" >> exit exit_success)

module _ (rest : Bytes) where
  -- The branch of one header: the text behind it goes to `fd`, with a newline.
  unfoldable pub write_text : ℕ → String → String → Bytes → Bytes → Prog (Unit {0})
  write_text fd error report header msg = do
    aux ← lift (text_line rest header msg)
    ret ← write_string fd aux
    on_written error report aux ret

  abbrev on_data : Files → Bytes → Prog (Unit {0})
  on_data f msg =
      write_text f.log_fd "write(FILE_NAME_DATA)"
        "-->>Reader: %ld bytes (counting '\\n') wroten in FILE_NAME_DATA: \"%s\"\n" data_header msg

  abbrev unless_data : Files → Bytes → Prog (Unit {0})
  unless_data f msg = do
    is_sign ← lift (has_header msg sign_header)
    if is_sign
        then write_text f.sign_fd "write(FILE_NAME_SIGN)"
            "-->>Reader: %ld bytes (counting '\\n') wroten in FILE_NAME_SIGN: \"%s\"\n" sign_header
            msg
        else write_stdout "From check_and_write_msg: MSG doesn't match headers\n"

  unfoldable pub check_and_write_msg : Files → Bytes → Prog (Unit {0})
  check_and_write_msg f msg = do
    is_data ← lift (has_header msg data_header)
    if is_data then on_data f msg else unless_data f msg

  -- The bytes that `read` brought, in the zeroed array `msg`.
  unfoldable pub on_message : Files → Bytes → Prog (Unit {0})
  on_message f bytes = do
    msg ← lift (copy_at (zeros fifo_msg_to_send_size rest) 0 bytes)
    text ← lift (c_string msg)
    printf "-->>Reader: %ld bytes read in FIFO_NAME: \"%s\"\n" (num (length bytes) ∷ str text ∷ [])
    check_and_write_msg f msg

  abbrev pub after_read : Files → Ret Bytes → Prog (Unit {0})
  after_read f (fail e) = perror "read(fifo_fd)" >> exit exit_failure
  after_read f (ok []) = on_eof f.fifo_fd
  after_read f (ok (b ∷ bs)) = on_message f (b ∷ bs)

  -- One pass of `while (1)`.
  unfoldable pub round : Files → Prog (Unit {0})
  round f = do ret ← read f.fifo_fd (fifo_msg_to_send_size - 1); after_read f ret

  -- The first `n` passes; `done` means that the loop goes on.
  unfoldable pub loop : ℕ → Files → Prog (Unit {0})
  loop zero f = done tt
  loop (suc n) f = round f >> loop n f

  unfoldable pub main : ℕ → Prog (Unit {0})
  main n = setup >>= loop n

unfoldable pub sig_handler : Signal → Prog (Unit {0})
sig_handler sigint = do
  write_stdout "\n\nCtrl+C pressed. SIGINT handler executing...\n"
  exit exit_failure
sig_handler _ = write_stdout "\nANOTHER SIGNAL\n" >> exit exit_failure
