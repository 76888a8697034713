-- ===== src/Echo/Turn.antt =====
-- material-clases/clase5/unix: one line goes to the server and comes back.
use cese_sopg_github_io.Common.{
  ℕ, suc, ◌<◌, ◌≡◌, ◌≢◌, refl, ap, ap₂, ◌∙◌, some, List, [], ◌∷◌, ◌++◌, length, take, arith,
  take_of_le,
}
use mathlib.Core.Option
use cese_sopg_github_io.Memory.{Bytes, until_nul}
use cese_sopg_github_io.Posix.{Ret, num, str, Prog, done, ok, ◌>>=◌, ◌>>◌, clip}
use cese_sopg_github_io.Posix.Sys.{printf, send, recv}
use cese_sopg_github_io.Posix.Terminal.{Shown, Terminal, take-take_of_le, terminal_rest-fits}
use cese_sopg_github_io.Processes.{Ends, settle}
use cese_sopg_github_io.Processes.Connection.{Link, under_way, receive-whole}
use cese_sopg_github_io.Processes.Orders.{
  only_left, only_right, settle_left, settle_right, as_left, as_right, as_settled,
}
use cese_sopg_github_io.Echo.Server
use cese_sopg_github_io.Echo.Server.{Place, outside, inside, or_return}
use cese_sopg_github_io.Echo.Client
use cese_sopg_github_io.Echo.Arrays.{echo-text, show-text, send_line-text}
use cese_sopg_github_io.Processes.Sockets.{
  client_inner, client_outer, client_side, server_inner, server_outer, server_side,
}

-- A line that fits the arrays.
pub record IsLine (l : Bytes) : Type 0 where
  pub some_input : l ≢ []
  pub short : length l < 100
  pub clean : until_nul l ≡ l

abbrev pub terminal : List Bytes → List Shown → Terminal
terminal ls screen = record { typed = ls; screen = screen }

abbrev pub prompt : Shown
prompt = record { format = "> "; args = [] }

abbrev pub came_back : Bytes → Shown
came_back l = record {
  format = "received %d bytes from server: %s\n";
  args = num (length l) ∷ str l ∷ [];
}

abbrev pub came : Bytes → Shown
came l = record {
  format = "received %d bytes from client: %s\n";
  args = num (length l) ∷ str l ∷ [];
}

module _ (rest rest' : Bytes) where
  abbrev after_sent : Ret ℕ → Prog (Unit {0})
  after_sent ret = or_return ret "send" >>= λ n. recv 3 100 >>= Client.on_received rest 3

  client_sends :
      (l : Bytes)
      → IsLine l
      → Client.on_line rest 3 (Option.map (take 99) (some (take 99 l))) ≡ (send 3 l >>= after_sent)
  client_sends l h =
      ap (λ t. Client.on_line rest 3 (some t)) (take-take_of_le 99 l (omega (arith, h.short)))
      ∙ ap (λ (p : Prog (Ret ℕ)). p >>= after_sent) (send_line-text rest 3 l h.short)
      ∙ ap (λ t. send 3 t >>= after_sent) h.clean

  abbrev answers : Bytes → Bytes → Prog Place
  answers l t =
      printf "received %d bytes from client: %s\n" (num (length l) ∷ str t ∷ [])
      >> send 4 t
      >>= λ ret. or_return ret "send" >>= λ n. done (inside 4)

  server_gets : (l : Bytes) → IsLine l → Server.on_received rest' 4 (clip 100 (ok l)) ≡ answers l l
  server_gets [] h = absurd (h.some_input refl)
  server_gets (b ∷ l) h =
      ap (Server.echo rest' 4) (take_of_le 100 (b ∷ l) (omega (arith, h.short)))
      ∙ echo-text rest' 4 (b ∷ l) h.short
      ∙ ap (answers (b ∷ l)) h.clean

  client_gets :
      (l : Bytes)
      → IsLine l
      → Client.on_received rest 3 (clip 100 (ok l))
        ≡ printf "received %d bytes from server: %s\n" (num (length l) ∷ str l ∷ [])
  client_gets [] h = absurd (h.some_input refl)
  client_gets (b ∷ l) h =
      ap (Client.show rest) (take_of_le 100 (b ∷ l) (omega (arith, h.short)))
      ∙ show-text rest (b ∷ l) h.short
      ∙ ap (λ t. printf "received %d bytes from server: %s\n" (num (length (b ∷ l)) ∷ str t ∷ []))
          h.clean

  module _ (Final : Prog (Unit {0}) → Terminal → Prog (Unit {0}) → List Shown → Link → Type 0) where
    -- The client is in its loop and the server in its inner loop, each as far as it goes alone.
    abbrev pub Talking : ℕ → ℕ → List Bytes → List Shown → List Shown → Type 0
    Talking n k ls screen log =
        Ends client_side server_side Final
          (settle client_inner (Client.loop rest n 3) (terminal ls screen)).0
          (settle client_inner (Client.loop rest n 3) (terminal ls screen)).1
          (settle server_inner (Server.loop rest' k 3 (inside 4)) log).0
          (settle server_inner (Server.loop rest' k 3 (inside 4)) log).1 (under_way [] [])

    pub turn :
        (n k : ℕ) (l : Bytes) (ls : List Bytes) (screen log : List Shown)
        → IsLine l
        → Talking n
            (suc k)
            ls
            ((screen ++ (prompt ∷ [])) ++ (came_back l ∷ []))
            (log ++ (came l ∷ []))
        → Talking (suc n) (suc (suc k)) (l ∷ ls) screen log
    unfolding Client.loop Client.pass Server.loop Server.pass
    turn n k l ls screen log h after =
        as_settled
          (ap₂
            (λ (p : Prog (Unit {0})) (left : List Bytes).
              settle client_inner (p >> Client.loop rest n 3)
                (terminal left (screen ++ (prompt ∷ []))))
            (client_sends l h) (terminal_rest-fits 99 l ls (omega (arith, h.short))))
          (only_left {m' = under_way l []} refl refl (
            only_right {a = ok l} {m' = under_way [] []}
              (receive-whole (λ s. record (under_way l []) { to_server = s }) log 100 l h.some_input
                (omega (arith, h.short)))
              refl
              (as_right
                (ap (λ (p : Prog Place). p >>= Server.loop rest' (suc k) 3) (server_gets l h))
                (settle_right server_inner server_outer _ _ (
                  only_right {m' = under_way [] l} refl refl (
                    settle_right server_inner server_outer _ _ (
                      only_left {a = ok l} {m' = under_way [] []}
                        (receive-whole (λ s. record (under_way [] l) { to_client = s })
                          (terminal ls (screen ++ (prompt ∷ []))) 100 l h.some_input
                          (omega (arith, h.short)))
                        refl
                        (as_left
                          (ap (λ (p : Prog (Unit {0})). p >> Client.loop rest n 3)
                            (client_gets l h))
                          (settle_left client_inner client_outer _ _ after)))))))))
