-- ===== src/Tokens/Pair/Tests.antt =====
-- A client of the token server on concrete inputs.
use cese_sopg_github_io.Common.{◌≡◌, refl, false, [], ◌∷◌, arith, replicate}
use cese_sopg_github_io.Memory.{Bytes, codes, c_string, copy_at}
use cese_sopg_github_io.Posix.{exited, run, unsupported}
use cese_sopg_github_io.Processes.{Ends}
use cese_sopg_github_io.Tokens as Server
use cese_sopg_github_io.Tokens.Client
use cese_sopg_github_io.Tokens.Text.{decimal, digits}
use cese_sopg_github_io.Tokens.Pair.Kernels.{client_side, server_side}
use cese_sopg_github_io.Tokens.Pair.Turn.{terminal, question, serve}
use cese_sopg_github_io.Tokens.Pair.Session.{AllGiven, shows, no_client, session-AllGiven}

-- Where its queue cannot be made, the client ends with status 1.
client_without_queue :
    (run
      (λ c (w : Unit {0}). (unsupported c, w))
      (Client.main 1 (replicate 64 7) (replicate 266 7))
      tt).0
    ≡ exited 1
unfolding run Client.main Client.setup decimal digits copy_at c_string
client_without_queue = refl

abbrev first : Server.Locals
first = record { in_buffer = replicate 266 7; out_buffer = replicate 266 7; token_number = 1 }

abbrev enter : Bytes
enter = codes "\n"

session-AllGiven_example :
    Ends
      (client_side 4321)
      server_side
      (AllGiven (shows (question ∷ []) 1 (enter ∷ enter ∷ [])))
      (Client.main 3 (replicate 64 7) (replicate 266 7))
      (terminal (enter ∷ enter ∷ []) [])
      (serve 3 first)
      false
      no_client
session-AllGiven_example =
    session-AllGiven (replicate 64 7) 4321 (enter ∷ enter ∷ []) (replicate 266 7) first refl refl
      (omega arith, (omega arith, tt)) (record { in_room = refl; out_room = refl }) (omega arith)
