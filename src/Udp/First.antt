-- ===== src/Udp/First.antt =====
-- material-clases/clase5/udp1: server_udp.c and cliente_udp.c, which sends one message and takes no answer.
use cese_sopg_github_io.Common.{ℕ, [], ◌∷◌}
use cese_sopg_github_io.Memory.{Bytes}
use cese_sopg_github_io.Posix.{Prog, exit, ◌>>=◌, ◌>>◌, exit_success}
use cese_sopg_github_io.Posix.Sys.{socket, fd_of, count_of, recvfrom, sendto, close, printf}
use cese_sopg_github_io.Udp.Server.{setup, show}
use cese_sopg_github_io.Udp.Client.{hola}

-- The server behind its set-up, which is that of udp2 with another address.
unfoldable pub take_message : Bytes → ℕ → Bytes → ℕ → Prog (Unit {0})
take_message ip port buffer s = do
  ret ← recvfrom s 127
  show ip port buffer ret
  _ ← close s
  exit exit_success

unfoldable pub server_main : Bytes → ℕ → Bytes → Prog (Unit {0})
server_main ip port buffer = setup >>= take_message ip port buffer

unfoldable pub client_main : Prog (Unit {0})
client_main = do
  made ← socket
  sent ← sendto (fd_of made) hola
  printf "Se enviaron %d bytes\n" (count_of sent ∷ [])
  _ ← close (fd_of made)
  exit exit_success
