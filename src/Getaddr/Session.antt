-- ===== src/Getaddr/Session.antt =====
-- material-clases/clase5/getaddr: a whole run of a client against a server that listens.
use cese_sopg_github_io.Common.{
  ℕ, suc, ◌≤◌, ◌≡◌, refl, ap, ap₂, ◌∙◌, none, List, [], ◌∷◌, length, take, arith, take_of_le,
}
use cese_sopg_github_io.Memory.{Bytes, codes, until_nul}
use cese_sopg_github_io.Memory.Strings.{written}
use cese_sopg_github_io.Posix.{Call, num, str, Prog, call, ok, ◌>>=◌, ◌>>◌, clip}
use cese_sopg_github_io.Posix.Sys.{printf, write}
use cese_sopg_github_io.Posix.Terminal.{Shown, terminal_rest-fits}
use cese_sopg_github_io.Processes.{Ends, settle, halted}
use cese_sopg_github_io.Processes.Connection.{idle, under_way, receive-whole}
use cese_sopg_github_io.Processes.Sockets.{
  client_inner, client_outer, client_side, server_inner, server_outer, server_side,
}
use cese_sopg_github_io.Processes.Accepting.{accepting-Independent}
use cese_sopg_github_io.Processes.Closing.{with_closed, closing-Independent}
use cese_sopg_github_io.Processes.Orders.{
  only_left, only_right, first_right, settle_left, settle_right, as_left, as_right, as_settled,
}
use cese_sopg_github_io.Tcp.Buffer.{ended_at-fits}
use cese_sopg_github_io.Tcp.Asking.{on_answer}
use cese_sopg_github_io.Tcp.Asked.{client_shows, client_sends, client_gets}
use cese_sopg_github_io.Tcp.Session.{line, terminal, IsAnswered}
use cese_sopg_github_io.Getaddr.Server
use cese_sopg_github_io.Getaddr.Server.{hola}
use cese_sopg_github_io.Getaddr.Client

-- What the client shows, of a message.
abbrev pub shown_by_client : Bytes → List Shown
shown_by_client l = client_shows Client.texts l (codes "hola")

-- What the server shows, of a message and the address that it came from.
abbrev pub server_shows : Bytes → Bytes → List Shown
server_shows address l =
    line "server:  conexion desde:  %s\n" (str address ∷ [])
    ∷ line "Recibi %d bytes.:%s\n" (num (length l) ∷ str l ∷ [])
    ∷ []

module _ (buf : Bytes) (b : ℕ) (l : Bytes) (room : length buf ≡ 128) (short : suc (length l) ≤ 127)
    (clean : until_nul (b ∷ l) ≡ b ∷ l) where
  module _ (peer : ℕ → Bytes) (buffers : ℕ → Bytes) (k : ℕ)
      (room' : length (buffers (suc k)) ≡ 128) where
    abbrev loops : Prog (Unit {0}) → Prog (Unit {0})
    loops p = p >> Server.loop peer (suc k) buffers 3

    -- The answer and the end of the connection, once the server has what the client sent.
    answered :
        (ls : List Bytes)
        → Ends client_side server_side
            (IsAnswered (shown_by_client (b ∷ l)) (server_shows (peer 4) (b ∷ l)))
            (call
              (Call.read 3 128)
              (λ r. on_answer Client.texts (written buf (b ∷ l)) 3 (clip 128 r)))
            (terminal ls (take 2 (shown_by_client (b ∷ l))))
            (loops (write 4 hola >>= Server.on_answered 4))
            (server_shows (peer 4) (b ∷ l))
            (under_way [] [])
    unfolding Server.loop Server.round
    answered ls = only_right {m' = under_way [] hola} refl refl (
        first_right (closing-Independent _) tt (
          settle_right server_inner server_outer _ _ (
            only_left {a = ok hola} {m' = with_closed (under_way [] [])} refl refl (
              as_left
                (client_gets Client.texts buf (b ∷ l) room short clean b'h' (codes "ola")
                  (omega arith) refl)
                (settle_left client_inner client_outer _ _ (
                  only_left refl refl
                    (halted refl refl (refl, refl, (_, refl), refl, refl, refl))))))))

    -- The server is in its loop and nobody is connected, its array and that of the client have 128 bytes, and
    -- the client gets a line of 1 to 127 bytes, none a NUL. Then in every order in which the system calls of
    -- the two programs can follow one another neither is left waiting for the other, although the server
    -- closes the connection at once: the server shows the line, the client shows "hola", which ends where the
    -- NUL that came with it lies in the array of the line, and exits with success, and the server waits for
    -- the next client.
    pub getaddr_session-IsAnswered :
        (ls : List Bytes)
        → Ends client_side server_side
            (IsAnswered (shown_by_client (b ∷ l)) (server_shows (peer 4) (b ∷ l)))
            (Client.main none buf)
            (terminal ((b ∷ l) ∷ ls) [])
            (Server.loop peer (suc (suc k)) buffers 3)
            []
            idle
    unfolding Client.main Server.loop Server.round
    getaddr_session-IsAnswered ls = settle_left client_inner client_outer _ _ (
        only_left refl refl (
          first_right (accepting-Independent _) (omega arith) (
            settle_left client_inner client_outer _ _ (
              settle_right server_inner server_outer _ _ (
                as_settled
                  (ap₂
                    (λ (p : Prog (Unit {0})) (left : List Bytes).
                      settle client_inner p (terminal left (take 1 (shown_by_client (b ∷ l)))))
                    (client_sends Client.texts buf (b ∷ l) room short clean)
                    (terminal_rest-fits 127 (b ∷ l) ls short))
                  (only_left {m' = under_way (b ∷ l) []} refl refl (
                    only_right {a = ok (b ∷ l)} {m' = under_way [] []}
                      (receive-whole (λ s. record (under_way (b ∷ l) []) { to_server = s })
                        (take 1 (server_shows (peer 4) (b ∷ l))) 128 (b ∷ l) (λ e. cc)
                        (omega arith))
                      refl
                      (as_right (ap loops server_gets)
                        (settle_right server_inner server_outer _ _ (answered ls))))))))))
      where
        server_gets : Server.on_read (buffers (suc k)) 4 (clip 128 (ok (b ∷ l))) ≡ (
            printf "Recibi %d bytes.:%s\n" (num (length (b ∷ l)) ∷ str (b ∷ l) ∷ [])
            >> write 4 hola
            >>= Server.on_answered 4)
        server_gets =
            let (buffer', ended, shown) = ended_at-fits (buffers (suc k)) (b ∷ l) (omega arith) in
            ap (λ bytes. Server.on_read (buffers (suc k)) 4 (ok bytes))
              (take_of_le 128 (b ∷ l) (omega arith))
            ∙ rw (ended, shown, clean) refl
