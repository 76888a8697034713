-- ===== src/Tcp/Client.antt =====
-- material-clases/clase5/tcp/cliente_tcp.c. The address "127.0.0.1" is a valid one, so inet_pton succeeds.
use cese_sopg_github_io.Common.{
  ℕ, zero, suc, Option, none, some, String, [], ◌∷◌, ◌++◌, length, take,
}
use cese_sopg_github_io.Memory.{Bytes, codes, c_string, strlen, copy_at}
use cese_sopg_github_io.Posix.{
  num, str, Ret, fail, ok, Prog, exit, lift, ◌>>=◌, ◌>>◌, exit_success, exit_failure,
}
use cese_sopg_github_io.Posix.Sys.{
  socket, connect, fgets, read, write, close, printf, print_error, fd_of, count_of,
}
use cese_sopg_github_io.Tcp.Buffer.{ended_at}

abbrev pub refuse : ℕ → String → Prog (Unit {0})
refuse s msg = do print_error msg; _ ← close s; exit exit_failure

abbrev pub leave : ℕ → Prog (Unit {0})
leave s = do _ ← close s; exit exit_success

-- The answer, in the array that the message was in.
abbrev pub on_answer : Bytes → ℕ → Ret Bytes → Prog (Unit {0})
on_answer buf s (fail e) = printf "cliente: recibi %d bytes\n" (str (codes "-1") ∷ []) >> leave s
on_answer buf s (ok []) = printf "cliente: recibi %d bytes\n" (num 0 ∷ []) >> leave s
on_answer buf s (ok (b ∷ bytes)) = do
  printf "cliente: recibi %d bytes\n" (num (length (b ∷ bytes)) ∷ [])
  buf' ← lift (ended_at buf (b ∷ bytes))
  text ← lift (c_string buf')
  printf "cliente: recibi: '%s'\n" (str text ∷ [])
  leave s

-- `n <= 0` ends the program.
abbrev pub unless_sent : Bytes → ℕ → Ret ℕ → Prog (Unit {0})
unless_sent buf s (fail e) = refuse s "ERROR sending command\n"
unless_sent buf s (ok zero) = refuse s "ERROR sending command\n"
unless_sent buf s (ok (suc n)) = do answer ← read s 128; on_answer buf s answer

abbrev pub on_sent : Bytes → ℕ → Ret ℕ → Prog (Unit {0})
on_sent buf s ret = printf "cliente: envie %d bytes\n" (count_of ret ∷ []) >> unless_sent buf s ret

-- `write(s, buf, strlen(buf))`
unfoldable pub send_message : Bytes → ℕ → Prog (Unit {0})
send_message buf s = do n ← lift (strlen buf); ret ← write s (take n buf); on_sent buf s ret

-- Where `fgets` gives NULL the array stays as it is.
abbrev pub on_line : Bytes → ℕ → Option Bytes → Prog (Unit {0})
on_line buf s none = send_message buf s
on_line buf s (some line) = do buf' ← lift (copy_at buf 0 (line ++ (0 ∷ []))); send_message buf' s

abbrev pub on_connected : Bytes → ℕ → Ret ℕ → Prog (Unit {0})
on_connected buf s (fail e) = refuse s "ERROR connecting\n"
on_connected buf s (ok r) = do
  printf "Ingrese un mensaje:\n" []
  line ← fgets 128
  on_line buf s line

-- `main`, by its array, which is not initialised.
unfoldable pub main : Bytes → Prog (Unit {0})
main buf = do
  made ← socket
  connected ← connect (fd_of made)
  on_connected buf (fd_of made) connected
