-- ===== src/Getaddr/Tests.antt =====
-- A run of material-clases/clase5/getaddr, and the theorem at it.
use cese_sopg_github_io.Common.{ℕ, none, [], ◌∷◌, arith, refl, replicate}
use cese_sopg_github_io.Memory.{Bytes, codes}
use cese_sopg_github_io.Processes.{Ends}
use cese_sopg_github_io.Processes.Connection.{idle}
use cese_sopg_github_io.Processes.Sockets.{client_side, server_side}
use cese_sopg_github_io.Tcp.Session.{terminal, IsAnswered}
use cese_sopg_github_io.Getaddr.Server
use cese_sopg_github_io.Getaddr.Client
use cese_sopg_github_io.Getaddr.Session.{shown_by_client, server_shows, getaddr_session-IsAnswered}

abbrev garbage : Bytes
garbage = replicate 128 7

abbrev local : ℕ → Bytes
local fd = codes "127.0.0.1"

getaddr_session-IsAnswered_example :
    Ends client_side server_side
      (IsAnswered
        (shown_by_client (codes "buenas\n"))
        (server_shows (codes "127.0.0.1") (codes "buenas\n")))
      (Client.main none garbage)
      (terminal (codes "buenas\n" ∷ []) [])
      (Server.loop local 2 (λ i. garbage) 3)
      []
      idle
getaddr_session-IsAnswered_example =
    getaddr_session-IsAnswered garbage b'b' (codes "uenas\n") refl (omega arith) refl local
      (λ i. garbage) 0 refl []
