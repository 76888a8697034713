-- ===== src/Practica/Connection.antt =====
-- material-clases/clase6/practica_resolviendo/server_tcp.c: the calls that one connection sees, those of `main`
-- and then those of its thread. `peer` is what inet_ntoa makes of a client's address, by the connection.
use cese_sopg_github_io.Common.{ℕ, List, [], ◌∷◌}
use cese_sopg_github_io.Memory.{Bytes}
use cese_sopg_github_io.Posix.{
  Ret, fail, ok, Prog, done, exit, fault, ◌>>=◌, ◌>>◌, str, die_if, failed,
}
use cese_sopg_github_io.Posix.Sys.{socket, bind, listen, accept, fd_of, printf, perror, close}
use cese_sopg_github_io.Practica.ClientData.{
  ClientData, FreeIndex, index, minus_one, out_of_bounds, cd_get_free_index,
}
use cese_sopg_github_io.Practica.Worker.{procesar_cliente}

abbrev on_bound : ℕ → Ret ℕ → Prog (Unit {0})
on_bound s (ok r) = done tt
on_bound s (fail e) = do _ ← close s; perror "listener: bind"; exit 1

-- `main` up to its loop; the result is the socket.
unfoldable setup : Prog ℕ
setup = do
  made ← socket
  bound ← bind (fd_of made)
  on_bound (fd_of made) bound
  listening ← listen (fd_of made) 10
  die_if (failed listening) "error en listen"
  done (fd_of made)

-- By what `cd_getFreeIndex` returned: the connection is discarded, or a thread serves it with its entry as
-- `data`. The stores to the entry are no calls; Server has them.
abbrev pub on_index : Bytes → ℕ → FreeIndex → Prog (Unit {0})
on_index buffer newfd (index i) = procesar_cliente buffer newfd
on_index buffer newfd minus_one = do printf "descartando conexion\n" []; _ ← close newfd; done tt
on_index buffer newfd out_of_bounds = fault

module _ (peer : ℕ → Bytes) where
  abbrev pub on_accepted : List ClientData → Bytes → Ret ℕ → Prog (Unit {0})
  on_accepted pool buffer (fail e) = perror "error en accept" >> exit 1
  on_accepted pool buffer (ok newfd) =
      printf "server:  conexion desde:  %s\n" (str (peer newfd) ∷ [])
      >> on_index buffer newfd (cd_get_free_index pool 100)

  -- A pass of the loop, with the pool as the search of it finds it.
  unfoldable pub connection : List ClientData → Bytes → ℕ → Prog (Unit {0})
  connection pool buffer s = do ret ← accept s; on_accepted pool buffer ret
