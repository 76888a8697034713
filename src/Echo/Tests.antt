-- ===== src/Echo/Tests.antt =====
-- The echo server and its client on concrete inputs.
use cese_sopg_github_io.Common.{◌≡◌, refl, [], ◌∷◌, arith}
use cese_sopg_github_io.Memory.{Bytes, codes}
use cese_sopg_github_io.Posix.{exited, run, unsupported}
use cese_sopg_github_io.Processes.{Ends}
use cese_sopg_github_io.Processes.Connection.{idle}
use cese_sopg_github_io.Echo.Server
use cese_sopg_github_io.Echo.Server.{outside, Place}
use cese_sopg_github_io.Echo.Client
use cese_sopg_github_io.Processes.Sockets.{client_side, server_side}
use cese_sopg_github_io.Echo.Turn.{IsLine, terminal}
use cese_sopg_github_io.Echo.Session.{AllEchoed, shows, logs, note, session-AllEchoed}

-- Without a socket both programs end with status 1.
server_without_socket :
    (run (λ c (w : Unit {0}). (unsupported c, w)) (Server.main [] 1) tt).0 ≡ exited 1
unfolding run Server.main Server.setup
server_without_socket = refl

client_without_socket :
    (run (λ c (w : Unit {0}). (unsupported c, w)) (Client.main [] 1) tt).0 ≡ exited 1
unfolding run Client.main Client.setup
client_without_socket = refl

abbrev hola : Bytes
hola = codes "hola\n"

hola-IsLine : IsLine hola
hola-IsLine = record { some_input = (cc); short = omega arith; clean = refl }

session-AllEchoed_example :
    Ends client_side server_side
      (AllEchoed (shows (note "connecting...\n" ∷ note "connected\n" ∷ []) (hola ∷ hola ∷ [])) (
        logs
          (note "waiting for connection....\n" ∷ note "server connected\n" ∷ [])
          (hola ∷ hola ∷ [])))
      (Client.main [] 3)
      (terminal (hola ∷ hola ∷ []) [])
      (Server.loop [] 5 3 outside)
      []
      idle
session-AllEchoed_example =
    session-AllEchoed [] [] (hola ∷ hola ∷ []) (hola-IsLine, (hola-IsLine, tt))
