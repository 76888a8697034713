-- ===== src/Tcp.antt =====
-- material-clases/clase5/tcp/server_tcp.c: the loop of the server that serves one client after the other.
-- `peer` is what inet_ntop makes of a client's address, by the connection.
pub mod Buffer
pub mod Kernel
pub mod Serve
pub mod Client
pub mod Session
pub mod Asking
pub mod Asked
mod Tests
use cese_sopg_github_io.Common.{ℕ, zero, suc, Option, [], ◌∷◌, ◌++◌, length}
use cese_sopg_github_io.Memory.{Bytes, codes, c_string}
use cese_sopg_github_io.Posix.{
  Ret, fail, ok, Prog, done, exit, lift, ◌>>=◌, ◌>>◌, num, str, exit_failure, die_if, failed,
}
use cese_sopg_github_io.Posix.Sys.{
  socket, bind, listen, fd_of, accept, read, write, close, printf, perror,
}
use Buffer.{ended_at}

-- "chau" with the NUL that ends it
abbrev pub chau : Bytes
chau = codes "chau" ++ (0 ∷ [])

-- The end of a pass: `n` is 0 if the client has closed the connection.
abbrev pub on_second_read : Bytes → ℕ → Ret Bytes → Prog (Unit {0})
on_second_read buffer newfd (fail e) = perror "read" >> exit exit_failure
on_second_read buffer newfd (ok []) = do _ ← close newfd; done tt
on_second_read buffer newfd (ok (b ∷ bytes)) = do
  buffer' ← lift (ended_at buffer (b ∷ bytes))
  text ← lift (c_string buffer')
  printf "server: recibi %d bytes:%s\n" (num (length (b ∷ bytes)) ∷ str text ∷ [])
  _ ← close newfd
  done tt

abbrev pub on_answered : Bytes → ℕ → Ret ℕ → Prog (Unit {0})
on_answered buffer newfd (fail e) = perror "write" >> exit exit_failure
on_answered buffer newfd (ok n) = do
  printf "server: envie %d bytes\n" (num n ∷ [])
  printf "server: esperando a que el cliente cierre la conexion...\n" []
  ret ← read newfd 128
  on_second_read buffer newfd ret

abbrev pub on_read : Bytes → ℕ → Ret Bytes → Prog (Unit {0})
on_read buffer newfd (fail e) = perror "read" >> exit exit_failure
on_read buffer newfd (ok bytes) = do
  buffer' ← lift (ended_at buffer bytes)
  text ← lift (c_string buffer')
  printf "server: recibi %d bytes:%s\n" (num (length bytes) ∷ str text ∷ [])
  ret ← write newfd chau
  on_answered buffer' newfd ret

module _ (peer : ℕ → Bytes) where
  abbrev pub on_accepted : Bytes → Ret ℕ → Prog (Unit {0})
  on_accepted buffer (fail e) = perror "accept" >> exit exit_failure
  on_accepted buffer (ok newfd) = do
    printf "server: conexion desde:  %s\n" (str (peer newfd) ∷ [])
    ret ← read newfd 128
    on_read buffer newfd ret

  -- One pass of `while (1)`; `buffer` is its array, which is not initialised.
  unfoldable pub round : Bytes → ℕ → Prog (Unit {0})
  round buffer s = do
    printf "server: esperando una conexion...\n" []
    ret ← accept s
    on_accepted buffer ret

  -- The first `n` passes, each with its array.
  unfoldable pub loop : ℕ → (ℕ → Bytes) → ℕ → Prog (Unit {0})
  loop zero buffers s = done tt
  loop (suc n) buffers s = round (buffers n) s >> loop n buffers s

  -- `main` up to its loop, by what `socket` gave, which is not looked at; the result is the socket.
  unfoldable pub setup : Prog ℕ
  setup = do
    made ← socket
    bound ← bind (fd_of made)
    die_if (failed bound) "bind"
    listening ← listen (fd_of made) 1
    die_if (failed listening) "listen"
    done (fd_of made)

  unfoldable pub main : ℕ → (ℕ → Bytes) → Prog (Unit {0})
  main n buffers = setup >>= loop n buffers
