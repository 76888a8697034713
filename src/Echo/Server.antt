-- ===== src/Echo/Server.antt =====
-- material-clases/clase5/unix/server.c, with arrays as in TpCorregido.Writer. `return 1` from `main` is the
-- program's exit.
use cese_sopg_github_io.Common.{ℕ, zero, suc, String, [], ◌∷◌, length, take}
use cese_sopg_github_io.Memory.{Bytes, zeros, c_string, strlen, store, copy_at}
use cese_sopg_github_io.Posix.{num, str, Ret, fail, ok, Prog, done, exit, ◌>>=◌, ◌>>◌, lift}
use cese_sopg_github_io.Posix.Sys.{
  printf, perror, socket, unlink, bind, listen, accept, recv, send, close,
}

abbrev pub socket_path : String
socket_path = "/tmp/mysocket"

-- `if (r == -1) { perror(msg); return 1; }`
abbrev pub or_return : Ret ℕ → String → Prog ℕ
or_return (fail e) msg = perror msg >> exit 1
or_return (ok n) msg = done n

-- `main` up to its loop; the result is the socket.
unfoldable pub setup : Prog ℕ
setup = do
  made ← socket
  s ← or_return made "socket"
  _ ← unlink socket_path
  bound ← bind s
  _ ← or_return bound "bind"
  listening ← listen s 10
  _ ← or_return listening "listen"
  done s

-- Where the program is: before `accept`, or in the inner loop with a connection.
pub data Place : Type 0 where
  outside : Place
  inside : (conn : ℕ) → Place

unfoldable pub wait : ℕ → Prog Place
wait s = do
  printf "waiting for connection....\n" []
  accepted ← accept s
  conn ← or_return accepted "accept"
  printf "server connected\n" []
  done (inside conn)

module _ (rest : Bytes) where
  -- The bytes that `recv` brought, into the zeroed array of 100 bytes: `buf[n] = '\0'`, and what is then the
  -- string goes back.
  unfoldable pub echo : ℕ → Bytes → Prog Place
  echo conn bytes = do
    buf ← lift (copy_at (zeros 100 rest) 0 bytes)
    buf' ← lift (store buf (length bytes) 0)
    text ← lift (c_string buf')
    printf "received %d bytes from client: %s\n" (num (length bytes) ∷ str text ∷ [])
    n ← lift (strlen buf')
    sent ← send conn (take n buf')
    _ ← or_return sent "send"
    done (inside conn)

  abbrev pub on_received : ℕ → Ret Bytes → Prog Place
  on_received conn (fail e) = perror "recv" >> exit 1
  on_received conn (ok []) = do _ ← close conn; done outside
  on_received conn (ok (b ∷ bytes)) = echo conn (b ∷ bytes)

  -- One pass of the outer loop up to its inner loop, or one pass of the inner loop.
  unfoldable pub pass : ℕ → Place → Prog Place
  pass s outside = wait s
  pass s (inside conn) = do received ← recv conn 100; on_received conn received

  -- The first `n` passes; `done` means that the loop goes on.
  unfoldable pub loop : ℕ → ℕ → Place → Prog (Unit {0})
  loop zero s p = done tt
  loop (suc n) s p = pass s p >>= loop n s

  unfoldable pub main : ℕ → Prog (Unit {0})
  main n = do s ← setup; loop n s outside
