-- ===== src/Udp/Client.antt =====
-- material-clases/clase5/udp2/cliente_udp.c. The address of the server is a constant.
use cese_sopg_github_io.Common.{ℕ, String, [], ◌∷◌, ◌++◌}
use cese_sopg_github_io.Memory.{Bytes, codes, c_string, copy_at}
use cese_sopg_github_io.Posix.{
  Ret, fail, ok, Prog, done, exit, lift, ◌>>=◌, ◌>>◌, str, exit_success,
}
use cese_sopg_github_io.Posix.Sys.{socket, fd_of, count_of, recvfrom, sendto, close, printf}

-- "hola" with the NUL that ends it
abbrev pub hola : Bytes
hola = codes "hola" ++ (0 ∷ [])

-- The array behind a `recvfrom`, whose result is not looked at.
abbrev pub received : Bytes → Ret Bytes → Prog Bytes
received buffer (fail e) = done buffer
received buffer (ok bytes) = lift (copy_at buffer 0 bytes)

-- One of the two answers: no NUL is put behind it.
abbrev pub take_answer : String → String → Bytes → ℕ → Prog Bytes
take_answer before format buffer s = do
  printf before []
  ret ← recvfrom s 127
  buffer' ← received buffer ret
  text ← lift (c_string buffer')
  printf format (str text ∷ [])
  done buffer'

-- `main`, by its array, which is not initialised.
unfoldable pub main : Bytes → Prog (Unit {0})
main buffer = do
  made ← socket
  sent ← sendto (fd_of made) hola
  printf "Se enviaron %d bytes\n" (count_of sent ∷ [])
  buffer' ← take_answer "recibo del server:\r\n" "Se recibio: '%s' \r\n" buffer (fd_of made)
  buffer'' ← take_answer "recibo del server2:\r\n" "Se recibio2: '%s' \r\n" buffer' (fd_of made)
  _ ← close (fd_of made)
  exit exit_success
