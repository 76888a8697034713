-- ===== src/Echo/Session.antt =====
-- material-clases/clase5/unix: a whole run of the client against a server that listens.
use cese_sopg_github_io.Common.{suc, ◌≡◌, refl, List, [], ◌∷◌, ◌++◌, length, arith, String}
use cese_sopg_github_io.Memory.{Bytes}
use cese_sopg_github_io.Posix.{Call, Reply, Prog, exit, call}
use cese_sopg_github_io.Posix.Terminal.{Shown, Terminal}
use cese_sopg_github_io.Processes.{Ends, halted}
use cese_sopg_github_io.Processes.Connection.{Link, idle}
use cese_sopg_github_io.Processes.Orders.{
  first_right, only_left, only_right, settle_left, settle_right,
}
use cese_sopg_github_io.Echo.Server
use cese_sopg_github_io.Echo.Server.{outside, inside}
use cese_sopg_github_io.Echo.Client
use cese_sopg_github_io.Processes.Sockets.{
  client_inner, client_outer, client_side, server_inner, server_outer, server_side,
}
use cese_sopg_github_io.Processes.Accepting.{accepting-Independent}
use cese_sopg_github_io.Echo.Turn.{IsLine, terminal, prompt, came_back, came, Talking, turn}

abbrev pub AllLines : List Bytes → Type 0
AllLines [] = Unit
AllLines (l ∷ ls) = IsLine l × AllLines ls

abbrev pub note : String → Shown
note format = record { format = format; args = [] }

-- What the client shows from its loop on: for each line the prompt and the line that came back.
abbrev pub shows : List Shown → List Bytes → List Shown
shows screen [] = (screen ++ (prompt ∷ [])) ++ (note "Client: bye! \n" ∷ [])
shows screen (l ∷ ls) = shows ((screen ++ (prompt ∷ [])) ++ (came_back l ∷ [])) ls

-- What the server shows from its inner loop on, until it waits for the next client.
abbrev pub logs : List Shown → List Bytes → List Shown
logs log [] = log ++ (note "waiting for connection....\n" ∷ [])
logs log (l ∷ ls) = logs (log ++ (came l ∷ [])) ls

-- The client has ended with success, with `screen` on its terminal, and the server, with `log` on its own,
-- waits in `accept`, with nothing left in the connection.
abbrev pub AllEchoed :
    List Shown
    → List Shown
    → Prog (Unit {0})
    → Terminal
    → Prog (Unit {0})
    → List Shown
    → Link
    → Type 0
AllEchoed screen log p l q r m =
    (p ≡ exit 0)
    × (l ≡ terminal [] screen)
    × ((k : Reply (Call.accept 3) → Prog (Unit {0})) × (q ≡ call (Call.accept 3) k))
    × (r ≡ log)
    × (m.waiting ≡ 0)
    × (m.to_server.bytes ≡ [])
    × (m.to_client.bytes ≡ [])

module _ (rest rest' : Bytes) where
  at_end :
      (screen log : List Shown)
      → Talking rest rest' (AllEchoed (shows screen []) (logs log [])) 1 2 [] screen log
  unfolding Client.loop Client.pass Server.loop Server.pass Server.wait
  at_end screen log = only_left refl refl (
      settle_left client_inner client_outer _ _ (
        only_right refl refl (
          only_right refl refl (
            settle_right server_inner server_outer _ _
              (halted refl refl (refl, refl, (_, refl), refl, refl, refl, refl))))))

  all_turns :
      (ls : List Bytes) (screen log : List Shown)
      → AllLines ls
      → Talking rest rest'
          (AllEchoed (shows screen ls) (logs log ls))
          (suc (length ls))
          (suc (suc (length ls)))
          ls
          screen
          log
  all_turns [] screen log h = at_end screen log
  all_turns (l ∷ ls) screen log h =
      turn rest rest' (AllEchoed (shows screen (l ∷ ls)) (logs log (l ∷ ls))) (suc (length ls))
        (suc (length ls)) l ls screen log h.0
        (all_turns ls ((screen ++ (prompt ∷ [])) ++ (came_back l ∷ [])) (log ++ (came l ∷ [])) h.1)

  -- The server listens and nobody is connected, and the client starts and gets lines of 1 to 99 bytes, none a
  -- NUL, before the end of its input. Then in every order in which the system calls of the two programs can
  -- follow one another neither is left waiting for the other: the client shows each line as it comes back,
  -- in order, and exits with success, and the server has shown each line and waits for the next client.
  pub session-AllEchoed :
      (ls : List Bytes)
      → AllLines ls
      → Ends client_side server_side
          (AllEchoed
            (shows (note "connecting...\n" ∷ note "connected\n" ∷ []) ls)
            (logs (note "waiting for connection....\n" ∷ note "server connected\n" ∷ []) ls))
          (Client.main rest (suc (length ls)))
          (terminal ls [])
          (Server.loop rest' (suc (suc (suc (length ls)))) 3 outside)
          []
          idle
  unfolding Client.main Client.setup Client.loop Client.pass Server.loop Server.pass Server.wait
  session-AllEchoed ls h = settle_left client_inner client_outer _ _ (
      settle_right server_inner server_outer _ _ (
        only_left refl refl (
          first_right (accepting-Independent _) (omega arith) (
            settle_left client_inner client_outer _ _ (
              settle_right server_inner server_outer _ _ (
                all_turns ls (note "connecting...\n" ∷ note "connected\n" ∷ [])
                  (note "waiting for connection....\n" ∷ note "server connected\n" ∷ []) h))))))
