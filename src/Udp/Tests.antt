-- ===== src/Udp/Tests.antt =====
-- A run of material-clases/clase5/udp2, and the theorem at it.
use cese_sopg_github_io.Common.{[], refl, replicate}
use cese_sopg_github_io.Memory.{Bytes, codes}
use cese_sopg_github_io.Processes.{Ends}
use cese_sopg_github_io.Udp.Server
use cese_sopg_github_io.Udp.Client
use cese_sopg_github_io.Udp.Datagrams.{client_side, server_side}
use cese_sopg_github_io.Udp.Session.{
  BothEnded, client_shows, server_shows, nothing, answers-BothEnded,
}

abbrev garbage : Bytes
garbage = replicate 128 7

answers-BothEnded_example :
    Ends client_side server_side
      (BothEnded client_shows (server_shows (codes "127.0.0.1") 40000))
      (Client.main garbage)
      []
      (Server.serve (codes "127.0.0.1") 40000 garbage 3)
      []
      nothing
answers-BothEnded_example = answers-BothEnded (codes "127.0.0.1") 40000 garbage refl garbage refl
