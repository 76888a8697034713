-- ===== src/Practica/Session.antt =====
-- material-clases/clase6/practica_resolviendo: a whole run of a client against the thread that serves it.
use cese_sopg_github_io.Common.{
  ℕ, suc, ◌≤◌, ◌≡◌, refl, ap, ap₂, ◌∙◌, List, [], ◌∷◌, length, take, arith, take_of_le,
}
use cese_sopg_github_io.Memory.{Bytes, codes, until_nul}
use cese_sopg_github_io.Memory.Strings.{written}
use cese_sopg_github_io.Posix.{Call, num, str, Prog, exit, done, call, ok, ◌>>=◌, ◌>>◌, clip}
use cese_sopg_github_io.Posix.Sys.{printf, write}
use cese_sopg_github_io.Posix.Terminal.{Shown, Terminal, terminal_rest-fits}
use cese_sopg_github_io.Processes.{Ends, settle, halted}
use cese_sopg_github_io.Processes.Connection.{Link, idle, under_way, receive-whole}
use cese_sopg_github_io.Processes.Sockets.{
  client_inner, client_outer, client_side, server_inner, server_outer, server_side,
}
use cese_sopg_github_io.Processes.Accepting.{accepting-Independent}
use cese_sopg_github_io.Processes.Closing.{with_closed, closing-Independent}
use cese_sopg_github_io.Processes.Orders.{
  only_left, only_right, first_right, settle_left, settle_right, as_left, as_right, as_settled,
}
use cese_sopg_github_io.Tcp.Asking.{on_answer}
use cese_sopg_github_io.Tcp.Asked.{client_shows, client_sends, client_gets}
use cese_sopg_github_io.Tcp.Session.{line, terminal}
use cese_sopg_github_io.Practica.ClientData.{ClientData, FreeIndex, index, cd_get_free_index}
use cese_sopg_github_io.Practica.Worker.{procesar_cliente, hola, on_answered, on_read, answer}
use cese_sopg_github_io.Practica.Worker.Buffer.{text_read-shown}
use cese_sopg_github_io.Practica.Connection.{on_index, connection}
use cese_sopg_github_io.Practica.Client

-- What the client shows, of a message.
abbrev pub shown_by_client : Bytes → List Shown
shown_by_client l = client_shows Client.texts l (codes "hola")

-- What the server shows, of a message and the address that it came from.
abbrev pub server_shows : Bytes → Bytes → List Shown
server_shows address l =
    line "server:  conexion desde:  %s\n" (str address ∷ [])
    ∷ line "Recibi %d bytes.:%s\n" (num (length l) ∷ str l ∷ [])
    ∷ []

-- The client has ended with success and the thread has returned, with what each has shown.
abbrev pub BothDone :
    List Shown
    → List Shown
    → Prog (Unit {0})
    → Terminal
    → Prog (Unit {0})
    → List Shown
    → Link
    → Type 0
BothDone screen log p l q r m =
    (p ≡ exit 0)
    × (l.screen ≡ screen)
    × (q ≡ done tt)
    × (r ≡ log)
    × (m.to_server.bytes ≡ [])
    × (m.to_client.bytes ≡ [])

module _ (buf : Bytes) (b : ℕ) (l : Bytes) (room : length buf ≡ 128) (short : suc (length l) ≤ 127)
    (clean : until_nul (b ∷ l) ≡ b ∷ l) where
  module _ (peer : ℕ → Bytes) (buffer : Bytes) (room' : length buffer ≡ 128) where
    thread_gets : on_read buffer 4 (clip 128 (ok (b ∷ l))) ≡ answer 4 (length (b ∷ l)) (b ∷ l)
    unfolding on_read
    thread_gets =
        ap (λ bytes. on_read buffer 4 (ok bytes)) (take_of_le 128 (b ∷ l) (omega arith))
        ∙ rw (text_read-shown buffer (b ∷ l) (omega arith), clean) refl

    -- The socket of the server listens and nobody is connected, the search of the pool finds a free entry, the
    -- array of the thread and that of the client have 128 bytes, and the client gets a line of 1 to 127 bytes, none a NUL.
    -- Then in every order in which the system calls of the client and of its connection can follow one another
    -- neither is left waiting for the other: the server shows the line, the thread returns, and the client
    -- shows "hola" and exits with success.
    pub client-BothDone :
        (ls : List Bytes) (pool : List ClientData) (i : ℕ)
        → cd_get_free_index pool 100 ≡ index i
        → Ends client_side server_side
            (BothDone (shown_by_client (b ∷ l)) (server_shows (peer 4) (b ∷ l)))
            (Client.main buf)
            (terminal ((b ∷ l) ∷ ls) [])
            (connection peer pool buffer 3)
            []
            idle
    unfolding Client.main connection procesar_cliente
    client-BothDone ls pool i found = settle_left client_inner client_outer _ _ (
        only_left refl refl (
          first_right (accepting-Independent _) (omega arith) (
            settle_left client_inner client_outer _ _ (
              as_right (ap accepted found) (
                settle_right server_inner server_outer _ _ (
                  as_settled
                    (ap₂
                      (λ (p : Prog (Unit {0})) (left : List Bytes).
                        settle client_inner p (terminal left (take 1 (shown_by_client (b ∷ l)))))
                      (client_sends Client.texts buf (b ∷ l) room short clean)
                      (terminal_rest-fits 127 (b ∷ l) ls short))
                    (only_left {m' = under_way (b ∷ l) []} refl refl (
                      only_right {a = ok (b ∷ l)} {m' = under_way [] []}
                        (receive-whole (λ s. record (under_way (b ∷ l) []) { to_server = s })
                          (take 1 (server_shows (peer 4) (b ∷ l))) 128 (b ∷ l) (λ e. cc)
                          (omega arith))
                        refl
                        (as_right thread_gets
                          (settle_right server_inner server_outer _ _ (answered ls)))))))))))
      where
        accepted : FreeIndex → Prog (Unit {0})
        accepted i =
            printf "server:  conexion desde:  %s\n" (str (peer 4) ∷ []) >> on_index buffer 4 i

        answered :
            (ls : List Bytes)
            → Ends client_side server_side
                (BothDone (shown_by_client (b ∷ l)) (server_shows (peer 4) (b ∷ l)))
                (call
                  (Call.read 3 128)
                  (λ r. on_answer Client.texts (written buf (b ∷ l)) 3 (clip 128 r)))
                (terminal ls (take 2 (shown_by_client (b ∷ l))))
                (write 4 hola >>= on_answered 4)
                (server_shows (peer 4) (b ∷ l))
                (under_way [] [])
        answered ls = only_right {m' = under_way [] hola} refl refl (
            first_right (closing-Independent _) tt (
              only_left {a = ok hola} {m' = with_closed (under_way [] [])} refl refl (
                as_left
                  (client_gets Client.texts buf (b ∷ l) room short clean b'h' (codes "ola")
                    (omega arith) refl)
                  (settle_left client_inner client_outer _ _ (
                    only_left refl refl (halted refl refl (refl, refl, refl, refl, refl, refl)))))))
