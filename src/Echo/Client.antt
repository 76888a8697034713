-- ===== src/Echo/Client.antt =====
-- material-clases/clase5/unix/client.c, with arrays as in TpCorregido.Writer.
use cese_sopg_github_io.Common.{
  ℕ, zero, suc, Option, none, some, Bool, true, false, [], ◌∷◌, ◌++◌, length, take,
}
use cese_sopg_github_io.Memory.{Bytes, zeros, c_string, strlen, store, copy_at}
use cese_sopg_github_io.Posix.{num, str, Ret, fail, ok, Prog, done, exit, ◌>>=◌, ◌>>◌, lift}
use cese_sopg_github_io.Posix.Sys.{printf, perror, socket, connect, fgets, feof, recv, send, close}
use cese_sopg_github_io.Echo.Server.{or_return}

-- `main` up to its loop; the result is the socket.
unfoldable pub setup : Prog ℕ
setup = do
  made ← socket
  sock ← or_return made "socket"
  printf "connecting...\n" []
  connected ← connect sock
  _ ← or_return connected "connect"
  printf "connected\n" []
  done sock

-- Behind the loop: `close`, and the end of the program.
abbrev pub bye : ℕ → Prog (Unit {0})
bye sock = do _ ← close sock; printf "Client: bye! \n" []; exit 0

-- `fgets` gave NULL.
abbrev pub on_no_line : ℕ → Bool → Prog (Unit {0})
on_no_line sock true = bye sock
on_no_line sock false = perror "fgets" >> exit 1

module _ (rest : Bytes) where
  unfoldable pub show : Bytes → Prog (Unit {0})
  show bytes = do
    recv_buf ← lift (copy_at (zeros 100 rest) 0 bytes)
    recv_buf' ← lift (store recv_buf (length bytes) 0)
    text ← lift (c_string recv_buf')
    printf "received %d bytes from server: %s\n" (num (length bytes) ∷ str text ∷ [])

  abbrev pub on_received : ℕ → Ret Bytes → Prog (Unit {0})
  on_received sock (fail e) = perror "recv" >> exit 1
  on_received sock (ok []) = bye sock
  on_received sock (ok (b ∷ bytes)) = show (b ∷ bytes)

  -- The line is in the zeroed array of 100 bytes, with its NUL.
  unfoldable pub send_line : ℕ → Bytes → Prog (Ret ℕ)
  send_line sock line = do
    send_buf ← lift (copy_at (zeros 100 rest) 0 (line ++ (0 ∷ [])))
    n ← lift (strlen send_buf)
    send sock (take n send_buf)

  abbrev pub on_line : ℕ → Option Bytes → Prog (Unit {0})
  on_line sock none = do at_end ← feof; on_no_line sock at_end
  on_line sock (some line) = do
    sent ← send_line sock line
    _ ← or_return sent "send"
    received ← recv sock 100
    on_received sock received

  -- One pass of `while (true)`.
  unfoldable pub pass : ℕ → Prog (Unit {0})
  pass sock = do printf "> " []; line ← fgets 100; on_line sock line

  -- The first `n` passes; `done` means that the loop goes on.
  unfoldable pub loop : ℕ → ℕ → Prog (Unit {0})
  loop zero sock = done tt
  loop (suc n) sock = pass sock >> loop n sock

  unfoldable pub main : ℕ → Prog (Unit {0})
  main n = setup >>= loop n
