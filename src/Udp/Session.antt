-- ===== src/Udp/Session.antt =====
-- material-clases/clase5/udp1 and udp2: a client against a server whose socket is bound.
use cese_sopg_github_io.Common.{ℕ, ◌≡◌, ◌<◌, refl, ap, String, List, [], ◌∷◌, ◌++◌, length, arith}
use cese_sopg_github_io.Memory.{Bytes, codes, until_nul, c_string}
use cese_sopg_github_io.Memory.Strings.{written, copy_at-written, c_string-written, length-written}
use cese_sopg_github_io.Posix.{Arg, num, str, Prog, exit, done, ok, ◌>>=◌, ◌>>◌, lift}
use cese_sopg_github_io.Posix.Sys.{printf, close}
use cese_sopg_github_io.Posix.Terminal.{Shown}
use cese_sopg_github_io.Processes.{Ends, halted}
use cese_sopg_github_io.Processes.Orders.{
  only_left, only_right, first_right, settle_left, settle_right, as_left, as_right,
}
use cese_sopg_github_io.Tcp.Buffer.{ended_at-fits}
use cese_sopg_github_io.Udp.Server
use cese_sopg_github_io.Udp.Client
use cese_sopg_github_io.Udp.First
use cese_sopg_github_io.Udp.Datagrams.{
  Net, inner, client_outer, server_outer, client_side, server_side, sending-Independent,
}

abbrev line : String → List Arg → Shown
line format args = record { format = format; args = args }

-- What the server shows of the message.
abbrev message_shown : Bytes → ℕ → List Shown
message_shown ip port =
    line "Se recibieron %d bytes" (num 5 ∷ [])
    ∷ line " desde ip:%s port:%d" (str ip ∷ num port ∷ [])
    ∷ line "\nMSG:%s\n" (str (codes "hola") ∷ [])
    ∷ []

abbrev pub server_shows : Bytes → ℕ → List Shown
server_shows ip port =
    message_shown ip port
    ++ (line "envio respuesta al cliente\r\n" [] ∷ line "envio respuesta2 al cliente\r\n" [] ∷ [])

abbrev pub client_shows : List Shown
client_shows =
    line "Se enviaron %d bytes\n" (num 5 ∷ [])
    ∷ line "recibo del server:\r\n" []
    ∷ line "Se recibio: '%s' \r\n" (str (codes "respuesta") ∷ [])
    ∷ line "recibo del server2:\r\n" []
    ∷ line "Se recibio2: '%s' \r\n" (str (codes "respuesta2") ∷ [])
    ∷ []

abbrev pub nothing : Net
nothing = record { to_server = []; to_client = [] }

-- Both programs have ended with success, with what each has shown, and no message is left.
abbrev pub BothEnded :
    List Shown
    → List Shown
    → Prog (Unit {0})
    → List Shown
    → Prog (Unit {0})
    → List Shown
    → Net
    → Type 0
BothEnded screen log p l q r m =
    (p ≡ exit 0) × (l ≡ screen) × (q ≡ exit 0) × (r ≡ log) × (m ≡ nothing)

module _ (ip : Bytes) (port : ℕ) (array : Bytes) (room : length array ≡ 128) where
  shows : Server.show ip port array (ok Client.hola) ≡ (
      printf "Se recibieron %d bytes" (num 5 ∷ [])
      >> printf " desde ip:%s port:%d" (str ip ∷ num port ∷ [])
      >> printf "\nMSG:%s\n" (str (codes "hola") ∷ []))
  shows =
      let (buffer', ended, shown) = ended_at-fits array Client.hola (omega arith) in
      rw (ended, shown) refl

  -- The socket of the server is bound and no message is under way, its array has 128 bytes, and no message is
  -- lost. Then in every order in which the system calls of the two programs of udp1 can follow one another
  -- both end with success and the server has shown the message of the client.
  pub message-BothEnded :
      Ends client_side server_side
        (BothEnded (line "Se enviaron %d bytes\n" (num 5 ∷ []) ∷ []) (message_shown ip port))
        First.client_main
        []
        (First.take_message ip port array 3)
        []
        nothing
  unfolding First.client_main First.take_message
  message-BothEnded = settle_left inner client_outer _ _ (
      only_left refl refl (
        settle_left inner client_outer _ _ (
          only_right refl refl (
            as_right (ap (λ (p : Prog (Unit {0})). p >> (close 3 >> exit 0)) shows) (
              settle_right inner server_outer _ _
                (halted refl refl (refl, refl, refl, refl, refl)))))))

  module _ (buf : Bytes) (room' : length buf ≡ 128) where
    -- What the client does with an answer that fits its array and holds no NUL but its last byte.
    takes :
        (format : String) (buf' text : Bytes)
        → length text < length buf'
        → until_nul text ≡ text
        → (Client.received buf' (ok (text ++ (0 ∷ []))) >>= λ b.
            lift (c_string b) >>= λ t. printf format (str t ∷ []) >> done b)
          ≡ (printf format (str text ∷ []) >> done (written buf' text))
    takes format buf' text h clean =
        rw (copy_at-written buf' text h, c_string-written buf' text clean) refl

    abbrev ends : Bytes → Prog (Unit {0})
    ends b = close 3 >> exit 0

    abbrev continues : Bytes → Prog (Unit {0})
    continues b = Client.take_answer "recibo del server2:\r\n" "Se recibio2: '%s' \r\n" b 3 >>= ends

    -- The socket of the server is bound and no message is under way, the arrays of both have 128 bytes, and no
    -- message is lost. Then in every order in which the system calls of the two programs of udp2 can follow
    -- one another both end with success, the server has shown the message of the client and the client both
    -- answers, in the order in which they were sent, whether it takes the first before or after the second is
    -- sent.
    pub answers-BothEnded :
        Ends client_side server_side
          (BothEnded client_shows (server_shows ip port))
          (Client.main buf)
          []
          (Server.serve ip port array 3)
          []
          nothing
    unfolding Client.main Server.serve Server.answer
    answers-BothEnded = settle_left inner client_outer _ _ (
        only_left refl refl (
          settle_left inner client_outer _ _ (
            only_right refl refl (
              as_right (ap (λ (p : Prog (Unit {0})). p >> Server.answer 3) shows) (
                settle_right inner server_outer _ _ (
                  only_right refl refl (
                    settle_right inner server_outer _ _ (
                      first_right (sending-Independent Server.respuesta2 _) tt (
                        settle_right inner server_outer _ _ (
                          only_left {a = ok Server.respuesta} refl refl (
                            as_left
                              (ap (λ (p : Prog Bytes). p >>= continues)
                                (takes "Se recibio: '%s' \r\n" buf (codes "respuesta") (omega arith)
                                  refl))
                              (settle_left inner client_outer _ _ (
                                only_left {a = ok Server.respuesta2} refl refl (
                                  as_left
                                    (ap (λ (p : Prog Bytes). p >>= ends)
                                      (takes "Se recibio2: '%s' \r\n"
                                        (written buf (codes "respuesta")) (codes "respuesta2")
                                        (omega (
                                          arith,
                                          length-written buf (codes "respuesta") (omega arith),
                                        ))
                                        refl))
                                    (settle_left inner client_outer _ _ (
                                      halted refl refl
                                        (refl, refl, refl, refl, refl)))))))))))))))))
