-- ===== src/Tcp/Tests.antt =====
-- Runs of the TCP server, and the theorems at them.
use cese_sopg_github_io.Common.{ℕ, refl, [], ◌∷◌, arith, replicate}
use cese_sopg_github_io.Memory.{Bytes, codes}
use cese_sopg_github_io.Processes.{Ends}
use cese_sopg_github_io.Processes.Connection.{idle}
use cese_sopg_github_io.Processes.Sockets.{client_side, server_side}
use cese_sopg_github_io.Tcp.{loop}
use cese_sopg_github_io.Tcp.Client
use cese_sopg_github_io.Tcp.Session.{
  terminal, IsAnswered, client_shows, server_shows, session-IsAnswered,
}

abbrev garbage : Bytes
garbage = replicate 128 7

abbrev local : ℕ → Bytes
local fd = codes "127.0.0.1"

session-IsAnswered_example :
    Ends client_side server_side
      (IsAnswered
        (client_shows (codes "hola\n"))
        (server_shows (codes "127.0.0.1") (codes "hola\n")))
      (Client.main garbage)
      (terminal (codes "hola\n" ∷ []) [])
      (loop local 2 (λ i. garbage) 3)
      []
      idle
session-IsAnswered_example =
    session-IsAnswered garbage b'h' (codes "ola\n") refl (omega arith) refl local (λ i. garbage) 0
      refl []
