-- ===== src/Getaddr/Server.antt =====
-- material-clases/clase5/getaddr/server_tcp.c. `refused` is the text of gai_strerror where getaddrinfo fails,
-- and `peer` is what inet_ntoa makes of a client's address, by the connection.
use cese_sopg_github_io.Common.{ℕ, zero, suc, Option, none, some, [], ◌∷◌, ◌++◌, length}
use cese_sopg_github_io.Memory.{Bytes, codes, c_string}
use cese_sopg_github_io.Posix.{
  Ret, fail, ok, Prog, done, exit, call, lift, ◌>>=◌, ◌>>◌, num, str, exit_failure, die_if, failed,
  Call,
}
use cese_sopg_github_io.Posix.Sys.{
  socket, bind, listen, fd_of, accept, read, write, close, printf, perror,
}
use cese_sopg_github_io.Tcp.Buffer.{ended_at}

-- "hola" with the NUL that ends it
abbrev pub hola : Bytes
hola = codes "hola" ++ (0 ∷ [])

-- The end of both programs where getaddrinfo fails.
abbrev pub unless_refused : Option Bytes → Prog (Unit {0})
unless_refused none = done tt
unless_refused (some text) =
    call (Call.write 2 (codes "getaddrinfo: " ++ text ++ codes "\n")) (λ r. exit exit_failure)

-- A `bind` that fails closes the socket and does not end the program.
abbrev pub on_bound : ℕ → Ret ℕ → Prog (Unit {0})
on_bound s (ok r) = done tt
on_bound s (fail e) = do _ ← close s; perror "listener: bind"

-- `main` up to its loop; the result is the socket.
unfoldable pub setup : Option Bytes → Prog ℕ
setup refused = do
  made ← socket
  unless_refused refused
  bound ← bind (fd_of made)
  on_bound (fd_of made) bound
  listening ← listen (fd_of made) 10
  die_if (failed listening) "error en listen"
  done (fd_of made)

abbrev pub on_answered : ℕ → Ret ℕ → Prog (Unit {0})
on_answered newfd (fail e) = perror "Error escribiendo mensaje en socket" >> exit exit_failure
on_answered newfd (ok n) = do _ ← close newfd; done tt

abbrev pub on_read : Bytes → ℕ → Ret Bytes → Prog (Unit {0})
on_read buffer newfd (fail e) = perror "Error leyendo mensaje en socket" >> exit exit_failure
on_read buffer newfd (ok bytes) = do
  buffer' ← lift (ended_at buffer bytes)
  text ← lift (c_string buffer')
  printf "Recibi %d bytes.:%s\n" (num (length bytes) ∷ str text ∷ [])
  ret ← write newfd hola
  on_answered newfd ret

module _ (peer : ℕ → Bytes) where
  abbrev pub on_accepted : Bytes → Ret ℕ → Prog (Unit {0})
  on_accepted buffer (fail e) = perror "error en accept" >> exit exit_failure
  on_accepted buffer (ok newfd) = do
    printf "server:  conexion desde:  %s\n" (str (peer newfd) ∷ [])
    ret ← read newfd 128
    on_read buffer newfd ret

  -- One pass of `while (1)`; `buffer` is its array, which is not initialised.
  unfoldable pub round : Bytes → ℕ → Prog (Unit {0})
  round buffer s = do ret ← accept s; on_accepted buffer ret

  -- The first `n` passes, each with its array.
  unfoldable pub loop : ℕ → (ℕ → Bytes) → ℕ → Prog (Unit {0})
  loop zero buffers s = done tt
  loop (suc n) buffers s = round (buffers n) s >> loop n buffers s

  unfoldable pub main : Option Bytes → ℕ → (ℕ → Bytes) → Prog (Unit {0})
  main refused n buffers = setup refused >>= loop n buffers
