-- ===== src/Udp/Datagrams.antt =====
-- The two ends of a datagram socket: each message is received as one, in the order in which they were sent, and
-- none is lost.
use cese_sopg_github_io.Common.{
  ℕ, ◌≡◌, refl, ap, arith, length, Bool, true, false, ◌==◌, if◌then◌else◌, Option, none, some, List,
  [], ◌∷◌, ◌++◌,
}
use mathlib.Core.Option
use cese_sopg_github_io.Memory.{Bytes}
use cese_sopg_github_io.Posix.{Call, Reply, Ret, fail, ok, unsupported}
use cese_sopg_github_io.Posix.Terminal.{Shown}
use cese_sopg_github_io.Processes.{Kernel, Inner, with_inner}
use cese_sopg_github_io.Processes.Laws.{Independent}

-- The messages under way.
pub record Net : Type 0 where
  pub to_server : List Bytes
  pub to_client : List Bytes

abbrev ebadf : ℕ
ebadf = 9

-- What a process prints, the sockets that it makes and closes, and its sleeps.
abbrev pub inner : Inner (List Shown)
inner (Call.printf format args) l = some (tt, l ++ ((record { format = format; args = args }) ∷ []))
inner Call.socket l = some (ok 3, l)
inner (Call.close fd) l = some (if fd == 3 then ok 0 else fail ebadf, l)
inner (Call.sleep seconds) l = some (0, l)
inner c l = none

abbrev first_of :
    (List Bytes → Net) → List Shown → List Bytes → Option (Ret Bytes × List Shown × Net)
first_of put l [] = none
first_of put l (b ∷ bs) = some (ok b, l, put bs)

-- Each process has one socket, 3; a call with another descriptor is refused.
abbrev at :
    {A : Type 0}
    → ℕ
    → Option (Ret A × List Shown × Net)
    → List Shown
    → Net
    → Option (Ret A × List Shown × Net)
at fd answer l m = if fd == 3 then answer else some (fail ebadf, l, m)

abbrev pub client_outer : Kernel (List Shown) Net
client_outer (Call.sendto fd bs) l m =
    at fd (some (ok (length bs), l, record m { to_server = m.to_server ++ (bs ∷ []) })) l m
client_outer (Call.recvfrom fd n) l m =
    at fd (first_of (λ bs. record m { to_client = bs }) l m.to_client) l m
client_outer c l m = some (unsupported c, l, m)

abbrev pub server_outer : Kernel (List Shown) Net
server_outer (Call.sendto fd bs) l m =
    at fd (some (ok (length bs), l, record m { to_client = m.to_client ++ (bs ∷ []) })) l m
server_outer (Call.recvfrom fd n) l m =
    at fd (first_of (λ bs. record m { to_server = bs }) l m.to_server) l m
server_outer c l m = some (unsupported c, l, m)

abbrev pub client_side : Kernel (List Shown) Net
client_side = with_inner inner client_outer

abbrev pub server_side : Kernel (List Shown) Net
server_side = with_inner inner server_outer

abbrev pub with_sent : Bytes → Net → Net
with_sent bs m = record m { to_client = m.to_client ++ (bs ∷ []) }

abbrev sent_behind :
    Bytes → Option (Ret Bytes × List Shown × Net) → Option (Ret Bytes × List Shown × Net)
sent_behind bs o = Option.map (λ (s : Ret Bytes × List Shown × Net). (s.0, s.1, with_sent bs s.2)) o

receiving-unnoticed :
    (msg : Bytes) (l l' : List Shown) (b : Ret Bytes) (m m' : Net) (queue : List Bytes)
    → first_of (λ bs. record m { to_client = bs }) l queue ≡ some (b, l', m')
    → first_of (λ bs. record m { to_client = bs }) l (queue ++ (msg ∷ []))
      ≡ some (b, l', with_sent msg m')
receiving-unnoticed msg l l' b m m' [] e = cc
receiving-unnoticed msg l l' b m m' (q ∷ queue) e = ap (sent_behind msg) e

-- By whether the descriptor is that of the client's socket.
receiving_at-unnoticed :
    (own : Bool) (msg : Bytes) (l l' : List Shown) (b : Ret Bytes) (m m' : Net)
    → (if own
        then first_of (λ bs. record m { to_client = bs }) l m.to_client
        else some (fail ebadf, l, m))
      ≡ some (b, l', m')
    → (if own
        then first_of (λ bs. record m { to_client = bs }) l (m.to_client ++ (msg ∷ []))
        else some (fail ebadf, l, with_sent msg m))
      ≡ some (b, l', with_sent msg m')
receiving_at-unnoticed true msg l l' b m m' e = receiving-unnoticed msg l l' b m m' m.to_client e
receiving_at-unnoticed false msg l l' b m m' e = ap (sent_behind msg) e

sending-unnoticed :
    (msg : Bytes) (d : Call) (l l' : List Shown) (b : Reply d) (m m' : Net)
    → client_side d l m ≡ some (b, l', m')
    → client_side d l (with_sent msg m) ≡ some (b, l', with_sent msg m')
sending-unnoticed msg (Call.recvfrom fd n) l l' b m m' e =
    receiving_at-unnoticed (fd == 3) msg l l' b m m' e
sending-unnoticed msg d l l' b m m' e = ground arith

-- What the client does can neither prevent a `sendto` of the server nor notice it.
pub sending-Independent :
    (msg : Bytes) (r : List Shown)
    → Independent server_side client_side
        (Call.sendto 3 msg)
        r
        r
        (ok (length msg))
        (λ m. Unit {0})
        (with_sent msg)
sending-Independent msg r = record {
  now = λ m h. refl;
  kept = λ d l l' b m m' h e. tt;
  unnoticed = λ d l l' b m m' h e. sending-unnoticed msg d l l' b m m' e;
}
