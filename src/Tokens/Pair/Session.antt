-- ===== src/Tokens/Pair/Session.antt =====
-- material-clases/clase7/ejemplo-msq: a whole run of a client against a server that has its queue.
use cese_sopg_github_io.Common.{
  ℕ, suc, ◌+◌, ◌^◌, ◌≤◌, ◌<◌, ◌≡◌, refl, ap, ◌∙◌, Bool, true, false, none, List, [], ◌∷◌, ◌++◌,
  length, arith,
}
use cese_sopg_github_io.Memory.{Bytes}
use cese_sopg_github_io.Posix.{Call, Reply, ok, Prog, exit, call, ◌>>=◌, ◌>>◌}
use cese_sopg_github_io.Posix.Terminal.{Shown, Terminal}
use cese_sopg_github_io.Processes.{Ends, settle, halted}
use cese_sopg_github_io.Processes.Orders.{only_left, settle_left, settle_right, as_settled}
use cese_sopg_github_io.Tokens as Server
use cese_sopg_github_io.Tokens.Client
use cese_sopg_github_io.Tokens.Text.{decimal, length-decimal}
use cese_sopg_github_io.Tokens.Steps.{HasRoom, written, length-written}
use cese_sopg_github_io.Tokens.Given.{after, after-HasRoom}
use cese_sopg_github_io.Tokens.Pair.Kernels.{
  Queues, client_inner, client_outer, client_side, server_inner, server_outer, server_side,
  client_outer-unlinks,
}
use cese_sopg_github_io.Tokens.Pair.Client.{
  name_of, name_of-IsName, locals, on_pid-name, unlink_queue-name,
}
use cese_sopg_github_io.Tokens.Pair.Turn.{
  terminal, queues, question, token_shown, serve, Talking, turn,
}

-- What the client shows from its loop on, with `t` the next number: a token for each line.
abbrev pub shows : List Shown → ℕ → List Bytes → List Shown
shows screen t [] = screen ++ ((record { format = "Client: bye\n"; args = [] }) ∷ [])
shows screen t (l ∷ ls) = shows ((screen ++ (token_shown t ∷ [])) ++ (question ∷ [])) (t + 1) ls

-- Lines that one `fgets` takes.
abbrev pub ShortTyped : List Bytes → Type 0
ShortTyped [] = Unit
ShortTyped (l ∷ ls) = (length l ≤ 9) × ShortTyped ls

abbrev pub no_client : Queues
no_client = record { requests = []; answers = []; client_name = none }

-- The client has ended with success, with `screen` on its terminal, and the server waits for a request at its
-- queue and has no queue of a client open; the
-- queues are empty, and that of the client is gone.
abbrev pub AllGiven :
    List Shown → Prog (Unit {0}) → Terminal → Prog (Unit {0}) → Bool → Queues → Type 0
AllGiven screen p l q r m =
    (p ≡ exit 0)
    × (l ≡ terminal [] screen)
    × ((k : Reply (Call.mq_receive (ok 3) 266) → Prog (Unit {0})) × (q
          ≡ call (Call.mq_receive (ok 3) 266) k))
    × (r ≡ false)
    × (m ≡ no_client)

module _ (name_buffer : Bytes) (pid : ℕ) where
  at_end :
      (screen : List Shown) (t : ℕ) (in_buffer : Bytes) (s : Server.Locals)
      → Talking name_buffer pid (AllGiven (shows screen t [])) 1 1 [] screen in_buffer s
  unfolding Client.loop Client.round Client.leave Server.loop Server.round
  at_end screen t in_buffer s =
      as_settled
        (ap
          (λ (p : Prog (Unit {0})).
            settle (client_inner pid)
              (p >> Prog.done (locals name_buffer pid in_buffer) >>= Client.loop 0)
              (terminal [] screen))
          (unlink_queue-name name_buffer pid in_buffer))
        (only_left {a = ok 0} {m' = no_client}
          (client_outer-unlinks (name_of pid) (terminal [] screen) [] []) refl
          (settle_left (client_inner pid) client_outer _ _
            (halted refl refl (refl, refl, (_, refl), refl, refl))))

  all_turns :
      (ls : List Bytes) (screen : List Shown) (in_buffer : Bytes) (s : Server.Locals)
      → ShortTyped ls
      → HasRoom s
      → s.token_number + length ls < 2 ^ 63
      → length in_buffer ≡ 266
      → Talking name_buffer pid
          (AllGiven (shows screen s.token_number ls))
          (suc (length ls))
          (suc (length ls))
          ls
          screen
          in_buffer
          s
  all_turns [] screen in_buffer s h room small room' = at_end screen s.token_number in_buffer s
  all_turns (l ∷ ls) screen in_buffer s h room small room' =
      turn name_buffer pid (AllGiven (shows screen s.token_number (l ∷ ls))) (suc (length ls))
        (length ls) l ls screen in_buffer s h.0 room (omega arith) room'
        (all_turns ls ((screen ++ (token_shown s.token_number ∷ [])) ++ (question ∷ []))
          (written in_buffer (decimal s.token_number)) (after true s (name_of pid)) h.1
          (after-HasRoom true s (name_of pid) room (name_of-IsName pid)) (omega arith)
          (length-written in_buffer (decimal s.token_number)
              (omega (arith, length-decimal s.token_number))
            ∙ room'))

  -- The server is in its loop with the next number `t`, its arrays have their lengths and its queue is empty,
  -- and a client starts, with arrays of their lengths, and gets lines of at most 9 bytes before the end of its
  -- input; `t` and as many more numbers as there are lines are below 2^63. Then in every order in which the
  -- system calls of the two programs can follow one another neither is left waiting for the other: the client
  -- shows for each line the next number from `t` on, removes its queue and exits with success, and the server
  -- waits for the next request, with no queue of a client open. The kernel finds a queue by the name that a
  -- program gives, and a message goes to the queue that its descriptor stands for.
  pub session-AllGiven :
      (ls : List Bytes) (in_buffer : Bytes) (s : Server.Locals)
      → length name_buffer ≡ 64
      → length in_buffer ≡ 266
      → ShortTyped ls
      → HasRoom s
      → s.token_number + length ls < 2 ^ 63
      → Ends
          (client_side pid)
          server_side
          (AllGiven (shows (question ∷ []) s.token_number ls))
          (Client.main (suc (length ls)) name_buffer in_buffer)
          (terminal ls [])
          (serve (suc (length ls)) s)
          false
          no_client
  unfolding Client.main Client.setup Server.loop Server.round
  session-AllGiven ls in_buffer s room_name room' h room small =
      settle_right server_inner server_outer _ _ (
        settle_left (client_inner pid) client_outer _ _ (
          as_settled
            (ap
              (λ (p : Prog Client.Locals).
                settle (client_inner pid) (p >>= Client.loop (suc (length ls))) (terminal ls []))
              (on_pid-name name_buffer pid in_buffer room_name))
            (only_left {m' = queues pid [] []} refl refl (
              only_left {m' = queues pid [] []} refl refl (
                settle_left (client_inner pid) client_outer _ _
                  (all_turns ls (question ∷ []) in_buffer s h room small room'))))))
