-- ===== src/Udp/Server.antt =====
-- material-clases/clase5/udp2/server_udp.c. `ip` and `port` are what inet_ntoa and ntohs make of the address
-- that the message came from, to which both answers go. The server's own address is a constant.
use cese_sopg_github_io.Common.{ℕ, [], ◌∷◌, ◌++◌, length}
use cese_sopg_github_io.Memory.{Bytes, codes, c_string}
use cese_sopg_github_io.Posix.{
  Ret, fail, ok, Prog, done, exit, fault, lift, ◌>>=◌, ◌>>◌, num, str, exit_success,
}
use cese_sopg_github_io.Posix.Sys.{
  socket, bind, fd_of, recvfrom, sendto, sleep, close, printf, perror,
}
use cese_sopg_github_io.Tcp.Buffer.{ended_at}

-- The texts of the two answers, each with its NUL
abbrev pub respuesta : Bytes
respuesta = codes "respuesta" ++ (0 ∷ [])

abbrev pub respuesta2 : Bytes
respuesta2 = codes "respuesta2" ++ (0 ∷ [])

-- A `bind` that fails closes the socket and does not end the program.
abbrev pub on_bound : ℕ → Ret ℕ → Prog (Unit {0})
on_bound s (ok r) = done tt
on_bound s (fail e) = do _ ← close s; perror "listener: bind"

-- `main` up to its `recvfrom`; the result is the socket.
unfoldable pub setup : Prog ℕ
setup = do made ← socket; bound ← bind (fd_of made); on_bound (fd_of made) bound; done (fd_of made)

-- From `sleep(2)` on; the results of `sendto` are not looked at.
unfoldable pub answer : ℕ → Prog (Unit {0})
answer s = do
  _ ← sleep 2
  printf "envio respuesta al cliente\r\n" []
  _ ← sendto s respuesta
  _ ← sleep 2
  printf "envio respuesta2 al cliente\r\n" []
  _ ← sendto s respuesta2
  _ ← close s
  exit exit_success

module _ (ip : Bytes) (port : ℕ) where
  -- What is shown of a message; where `recvfrom` fails, the zero goes to index -1.
  abbrev pub show : Bytes → Ret Bytes → Prog (Unit {0})
  show buffer (fail e) = do
    printf "Se recibieron %d bytes" (str (codes "-1") ∷ [])
    printf " desde ip:%s port:%d" (str ip ∷ num port ∷ [])
    fault
  show buffer (ok bytes) = do
    printf "Se recibieron %d bytes" (num (length bytes) ∷ [])
    printf " desde ip:%s port:%d" (str ip ∷ num port ∷ [])
    buffer' ← lift (ended_at buffer bytes)
    text ← lift (c_string buffer')
    printf "\nMSG:%s\n" (str text ∷ [])

  -- `main` behind `setup`; `buffer` is its array, which is not initialised.
  unfoldable pub serve : Bytes → ℕ → Prog (Unit {0})
  serve buffer s = do ret ← recvfrom s 127; show buffer ret; answer s

  unfoldable pub main : Bytes → Prog (Unit {0})
  main buffer = setup >>= serve buffer
