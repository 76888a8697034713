-- ===== src/Tokens/Pair/Turn.antt =====
-- material-clases/clase7/ejemplo-msq: one request goes to the server and its token comes back.
use cese_sopg_github_io.Common.{
  ℕ, suc, ◌+◌, ◌^◌, ◌≤◌, ◌<◌, ◌≡◌, refl, ap, ap₂, ◌∙◌, Bool, true, false, some, List, [], ◌∷◌, ◌++◌,
  length, arith, take_of_le,
}
use cese_sopg_github_io.Memory.{Bytes}
use cese_sopg_github_io.Posix.{str, ok, Prog, done, ◌>>=◌, ◌>>◌, clip, open_wronly}
use cese_sopg_github_io.Posix.Sys.{printf, mq_open}
use cese_sopg_github_io.Posix.Terminal.{Shown, Terminal, terminal_rest-fits}
use cese_sopg_github_io.Processes.{Ends, settle}
use cese_sopg_github_io.Processes.Orders.{
  only_left, only_right, settle_left, settle_right, as_left, as_right, as_settled, as_settled_right,
}
use cese_sopg_github_io.Tokens as Server
use cese_sopg_github_io.Tokens.Client
use cese_sopg_github_io.Tokens.Text.{decimal}
use cese_sopg_github_io.Tokens.Steps.{
  nul, HasRoom, written, with_in, with_out, send_token_lem, on_received_lem, length-nul,
}
use cese_sopg_github_io.Tokens.Given.{increment_lem, with_in-HasRoom, after}
use cese_sopg_github_io.Tokens.Pair.Kernels.{
  Queues, client_inner, client_outer, client_side, server_inner, server_outer, server_side,
  server_outer-opens,
}
use cese_sopg_github_io.Tokens.Pair.Client.{
  name_of, name_of-IsName, locals, ask-name, on_answer-token,
}

abbrev pub terminal : List Bytes → List Shown → Terminal
terminal ls screen = record { typed = ls; screen = screen }

-- The queue of the client exists, under its name; what is in the two queues.
abbrev pub queues : ℕ → List Bytes → List Bytes → Queues
queues pid requests answers = record {
  requests = requests;
  answers = answers;
  client_name = some (name_of pid);
}

abbrev pub question : Shown
question = record { format = "Ask for a token (Press <ENTER>): "; args = [] }

abbrev pub token_shown : ℕ → Shown
token_shown t = record {
  format = "Client: Token received from server: %s\n\n";
  args = str (decimal t) ∷ [];
}

-- The server's loop, as a program without a result.
abbrev pub serve : ℕ → Server.Locals → Prog (Unit {0})
serve k s = Server.loop k (ok 3) s >>= λ _. done tt

module _ (name_buffer : Bytes) (pid : ℕ) where
  server_gets :
      (s : Server.Locals)
      → HasRoom s
      → Server.on_received s (clip 266 (ok (nul (name_of pid)))) ≡ (
          printf "Server: message received.\n" []
          >> mq_open (name_of pid) open_wronly
          >>= Server.on_opened (with_in s (name_of pid)))
  server_gets s room =
      ap (λ bytes. Server.on_received s (ok bytes))
        (take_of_le 266 (nul (name_of pid))
          (omega (arith, length-nul (name_of pid), (name_of-IsName pid).1)))
      ∙ on_received_lem s (name_of pid) room (name_of-IsName pid)

  module _ (Final : Prog (Unit {0}) → Terminal → Prog (Unit {0}) → Bool → Queues → Type 0) where
    -- The client and the server are in their loops, each as far as it goes alone.
    abbrev pub Talking : ℕ → ℕ → List Bytes → List Shown → Bytes → Server.Locals → Type 0
    Talking n k ls screen in_buffer s =
        Ends (client_side pid) server_side Final
          (settle (client_inner pid) (Client.loop n (locals name_buffer pid in_buffer))
            (terminal ls screen)).0
          (settle (client_inner pid) (Client.loop n (locals name_buffer pid in_buffer))
            (terminal ls screen)).1
          (settle server_inner (serve k s) false).0 (settle server_inner (serve k s) false).1
          (queues pid [] [])

    -- The server gives out the number and waits for the next request.
    given :
        (n k : ℕ) (ls : List Bytes) (screen : List Shown) (in_buffer : Bytes) (s : Server.Locals)
        → HasRoom s
        → s.token_number + 1 < 2 ^ 63
        → length in_buffer ≡ 266
        → Talking n
            (suc k)
            ls
            ((screen ++ (token_shown s.token_number ∷ [])) ++ (question ∷ []))
            (written in_buffer (decimal s.token_number))
            (after true s (name_of pid))
        → Ends
            (client_side pid)
            server_side
            Final
            (Client.on_asked (locals name_buffer pid in_buffer) (ok 0) >>= Client.loop n)
            (terminal ls screen)
            (settle server_inner (serve (suc (suc k)) s) false).0
            (settle server_inner (serve (suc (suc k)) s) false).1
            (queues pid (nul (name_of pid) ∷ []) [])
    unfolding Server.loop Server.round
    given n k ls screen in_buffer s room small room' talking =
        only_right {a = ok (nul (name_of pid))} {m' = queues pid [] []} refl refl (
          as_right (ap serves (server_gets s room)) (
            settle_right server_inner server_outer _ _ (
              only_right {r' = true} {a = ok 4} (server_outer-opens (name_of pid) false [] []) refl
                (as_right
                  (ap serves (
                    send_token_lem (with_in s (name_of pid)) (ok 4)
                      (with_in-HasRoom s (name_of pid) room (name_of-IsName pid))))
                  (only_right {m' = queues pid [] (nul (decimal s.token_number) ∷ [])} refl refl (
                    settle_right server_inner server_outer _ _ (
                      as_settled_right
                        (ap (λ (p : Prog ℕ). settle server_inner (counts p) false)
                          (increment_lem s.token_number small))
                        (only_left {a = ok (nul (decimal s.token_number))} {m' = queues pid [] []}
                          refl refl
                          (as_left
                            (ap (λ (p : Prog Client.Locals). p >>= Client.loop n)
                              (on_answer-token name_buffer pid in_buffer s.token_number room'))
                            (settle_left (client_inner pid) client_outer _ _ talking))))))))))
      where
        serves : Prog Server.Locals → Prog (Unit {0})
        serves p = p >>= Server.loop (suc k) (ok 3) >>= λ _. done tt

        counts : Prog ℕ → Prog (Unit {0})
        counts p =
            serves
              (p >>= λ t. done (record (with_out (with_in s (name_of pid))) { token_number = t }))

    -- A line from the terminal, whatever it says, asks for a token.
    pub turn :
        (n k : ℕ) (l : Bytes) (ls : List Bytes) (screen : List Shown) (in_buffer : Bytes)
        (s : Server.Locals)
        → length l ≤ 9
        → HasRoom s
        → s.token_number + 1 < 2 ^ 63
        → length in_buffer ≡ 266
        → Talking n
            (suc k)
            ls
            ((screen ++ (token_shown s.token_number ∷ [])) ++ (question ∷ []))
            (written in_buffer (decimal s.token_number))
            (after true s (name_of pid))
        → Talking (suc n) (suc (suc k)) (l ∷ ls) screen in_buffer s
    unfolding Client.loop Client.round Server.loop Server.round
    turn n k l ls screen in_buffer s short room small room' talking =
        as_settled
          (ap₂
            (λ (p : Prog Client.Locals) (left : List Bytes).
              settle (client_inner pid) (p >>= Client.loop n) (terminal left screen))
            (ask-name name_buffer pid in_buffer) (terminal_rest-fits 9 l ls short))
          (only_left {m' = queues pid (nul (name_of pid) ∷ []) []} refl refl
            (given n k ls screen in_buffer s room small room' talking))
