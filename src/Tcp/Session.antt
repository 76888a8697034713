-- ===== src/Tcp/Session.antt =====
-- material-clases/clase5/tcp: a whole run of a client against a server that listens.
use cese_sopg_github_io.Common.{
  ℕ, suc, ◌≤◌, ◌≡◌, refl, ap, ap₂, ◌∙◌, some, List, [], ◌∷◌, length, take, arith, take_of_le,
  String,
}
use mathlib.Core.Option
use cese_sopg_github_io.Memory.{Bytes, codes, until_nul}
use cese_sopg_github_io.Memory.Strings.{
  written, copy_at-written, length-written, strlen-written, take-text,
}
use cese_sopg_github_io.Posix.{Arg, Call, Reply, num, str, Prog, exit, call, ok, ◌>>=◌, ◌>>◌, clip}
use cese_sopg_github_io.Posix.Sys.{printf, write}
use cese_sopg_github_io.Posix.Terminal.{Shown, Terminal, take-take_of_le, terminal_rest-fits}
use cese_sopg_github_io.Processes.{Ends, settle, halted}
use cese_sopg_github_io.Processes.Connection.{Link, idle, under_way, receive-whole}
use cese_sopg_github_io.Processes.Sockets.{
  client_inner, client_outer, client_side, server_inner, server_outer, server_side,
}
use cese_sopg_github_io.Processes.Accepting.{accepting-Independent}
use cese_sopg_github_io.Processes.Orders.{
  only_left, only_right, first_right, settle_left, settle_right, as_left, as_right, as_settled,
}
use cese_sopg_github_io.Tcp as Server
use cese_sopg_github_io.Tcp.{chau}
use cese_sopg_github_io.Tcp.Client
use cese_sopg_github_io.Tcp.Buffer.{ended_at-fits}
use cese_sopg_github_io.Tcp.Serve.{on_read_text}

abbrev pub line : String → List Arg → Shown
line format args = record { format = format; args = args }

-- What the client shows, of a message.
abbrev pub client_shows : Bytes → List Shown
client_shows l =
    line "Ingrese un mensaje:\n" []
    ∷ line "cliente: envie %d bytes\n" (num (length l) ∷ [])
    ∷ line "cliente: recibi %d bytes\n" (num 5 ∷ [])
    ∷ line "cliente: recibi: '%s'\n" (str (codes "chau") ∷ [])
    ∷ []

-- What the server shows, of a message and the address that it came from.
abbrev pub server_shows : Bytes → Bytes → List Shown
server_shows address l =
    line "server: esperando una conexion...\n" []
    ∷ line "server: conexion desde:  %s\n" (str address ∷ [])
    ∷ line "server: recibi %d bytes:%s\n" (num (length l) ∷ str l ∷ [])
    ∷ line "server: envie %d bytes\n" (num 5 ∷ [])
    ∷ line "server: esperando a que el cliente cierre la conexion...\n" []
    ∷ line "server: esperando una conexion...\n" []
    ∷ []

-- The client has ended with success and the server waits in `accept` again, with what each has shown.
abbrev pub IsAnswered :
    List Shown
    → List Shown
    → Prog (Unit {0})
    → Terminal
    → Prog (Unit {0})
    → List Shown
    → Link
    → Type 0
IsAnswered screen log p l q r m =
    (p ≡ exit 0)
    × (l.screen ≡ screen)
    × ((k : Reply (Call.accept 3) → Prog (Unit {0})) × (q ≡ call (Call.accept 3) k))
    × (r ≡ log)
    × (m.to_server.bytes ≡ [])
    × (m.to_client.bytes ≡ [])

abbrev pub terminal : List Bytes → List Shown → Terminal
terminal ls screen = record { typed = ls; screen = screen }

module _ (buf : Bytes) (b : ℕ) (l : Bytes) (room : length buf ≡ 128) (short : suc (length l) ≤ 127)
    (clean : until_nul (b ∷ l) ≡ b ∷ l) where
  client_sends :
      Client.on_line buf 3 (Option.map (take 127) (some (take 127 (b ∷ l))))
      ≡ (write 3 (b ∷ l) >>= Client.on_sent (written buf (b ∷ l)) 3)
  unfolding Client.send_message
  client_sends =
      ap (λ t. Client.on_line buf 3 (some t)) (take-take_of_le 127 (b ∷ l) short)
      ∙ rw (copy_at-written buf (b ∷ l) (omega arith), strlen-written buf (b ∷ l) clean)
          (ap (λ t. write 3 t >>= Client.on_sent (written buf (b ∷ l)) 3) (take-text buf (b ∷ l)))

  client_gets : Client.on_answer (written buf (b ∷ l)) 3 (ok chau) ≡ (
      printf "cliente: recibi %d bytes\n" (num 5 ∷ [])
      >> printf "cliente: recibi: '%s'\n" (str (codes "chau") ∷ [])
      >> Client.leave 3)
  client_gets =
      let (buf', ended, shown) =
        ended_at-fits (written buf (b ∷ l)) chau
          (omega (arith, length-written buf (b ∷ l) (omega arith), room)) in
      rw (ended, shown) refl

  module _ (peer : ℕ → Bytes) (buffers : ℕ → Bytes) (k : ℕ)
      (room' : length (buffers (suc k)) ≡ 128) where
    abbrev loops : Prog (Unit {0}) → Prog (Unit {0})
    loops p = p >> Server.loop peer (suc k) buffers 3

    -- The answer and the end of the connection, once the server has what the client sent.
    answered :
        (ls : List Bytes) (buffer' : Bytes)
        → Ends client_side server_side
            (IsAnswered (client_shows (b ∷ l)) (server_shows (peer 4) (b ∷ l)))
            (call (Call.read 3 128) (λ r. Client.on_answer (written buf (b ∷ l)) 3 (clip 128 r)))
            (terminal ls (take 2 (client_shows (b ∷ l))))
            (loops (write 4 chau >>= Server.on_answered buffer' 4))
            (take 3 (server_shows (peer 4) (b ∷ l)))
            (under_way [] [])
    unfolding Server.loop Server.round
    answered ls buffer' = only_right {m' = under_way [] chau} refl refl (
        settle_right server_inner server_outer _ _ (
          only_left {a = ok chau} {m' = under_way [] []} refl refl (
            as_left client_gets (
              settle_left client_inner client_outer _ _ (
                only_left refl refl (
                  only_right refl refl (
                    only_right refl refl (
                      settle_right server_inner server_outer _ _
                        (halted refl refl (refl, refl, (_, refl), refl, refl, refl))))))))))

    -- The server is in its loop and nobody is connected, its array and that of the client have 128 bytes, and
    -- the client gets a line of 1 to 127 bytes, none a NUL. Then in every order in which the system calls of
    -- the two programs can follow one another neither is left waiting for the other: the server shows the
    -- line, the client shows "chau", which has come with its NUL, and exits with success, and the server waits
    -- for the next client.
    pub session-IsAnswered :
        (ls : List Bytes)
        → Ends client_side server_side
            (IsAnswered (client_shows (b ∷ l)) (server_shows (peer 4) (b ∷ l)))
            (Client.main buf)
            (terminal ((b ∷ l) ∷ ls) [])
            (Server.loop peer (suc (suc k)) buffers 3)
            []
            idle
    unfolding Client.main Server.loop Server.round
    session-IsAnswered ls = settle_left client_inner client_outer _ _ (
        settle_right server_inner server_outer _ _ (
          only_left refl refl (
            first_right (accepting-Independent _) (omega arith) (
              settle_left client_inner client_outer _ _ (
                settle_right server_inner server_outer _ _ (
                  as_settled
                    (ap₂
                      (λ (p : Prog (Unit {0})) (left : List Bytes).
                        settle client_inner p (terminal left (take 1 (client_shows (b ∷ l)))))
                      client_sends (terminal_rest-fits 127 (b ∷ l) ls short))
                    (only_left {m' = under_way (b ∷ l) []} refl refl (
                      settle_left client_inner client_outer _ _ (
                        only_right {a = ok (b ∷ l)} {m' = under_way [] []}
                          (receive-whole (λ s. record (under_way (b ∷ l) []) { to_server = s })
                            (take 2 (server_shows (peer 4) (b ∷ l))) 128 (b ∷ l) (λ e. cc)
                            (omega arith))
                          refl
                          (as_right (ap loops (server_gets.1)) (
                            settle_right server_inner server_outer _ _
                              (answered ls server_gets.0))))))))))))
      where
        server_gets :
            (buffer' : Bytes) × (Server.on_read (buffers (suc k)) 4 (clip 128 (ok (b ∷ l))) ≡ (
              printf "server: recibi %d bytes:%s\n" (num (length (b ∷ l)) ∷ str (b ∷ l) ∷ [])
              >> write 4 chau
              >>= Server.on_answered buffer' 4))
        server_gets =
            let (buffer', same) = on_read_text (buffers (suc k)) (b ∷ l) 4 (omega arith) in
            (
              buffer',
              ap (λ bytes. Server.on_read (buffers (suc k)) 4 (ok bytes))
                    (take_of_le 128 (b ∷ l) (omega arith))
                  ∙ same
                  ∙ ap
                      (λ t.
                        printf "server: recibi %d bytes:%s\n" (num (length (b ∷ l)) ∷ str t ∷ [])
                        >> write 4 chau
                        >>= Server.on_answered buffer' 4)
                      clean,
            )
