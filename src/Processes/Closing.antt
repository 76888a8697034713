-- ===== src/Processes/Closing.antt =====
-- The `close` of a connection by the server, after its last bytes.
use cese_sopg_github_io.Common.{
  ℕ, ◌≡◌, refl, ap, Bool, true, false, ◌==◌, if◌then◌else◌, arith, Option, some, List, [], ◌∷◌,
}
use mathlib.Core.Option
use cese_sopg_github_io.Memory.{Bytes}
use cese_sopg_github_io.Posix.{Call, Reply, Ret, fail, ok}
use cese_sopg_github_io.Posix.Terminal.{Shown, Terminal}
use cese_sopg_github_io.Processes.Connection.{Link, receive}
use cese_sopg_github_io.Processes.Laws.{Independent}
use cese_sopg_github_io.Processes.Sockets.{ebadf, client_side, server_side}

abbrev pub with_closed : Link → Link
with_closed m = record m { to_client = record m.to_client { closed = true } }

abbrev closed_behind : Option (Ret Bytes × Terminal × Link) → Option (Ret Bytes × Terminal × Link)
closed_behind o = Option.map (λ (s : Ret Bytes × Terminal × Link). (s.0, s.1, with_closed s.2)) o

receiving-unnoticed :
    (n : ℕ) (l l' : Terminal) (b : Ret Bytes) (m m' : Link) (bytes : Bytes) (closed : Bool)
    → receive (λ s. record m { to_client = s }) l n bytes closed ≡ some (b, l', m')
    → receive (λ s. record m { to_client = s }) l n bytes true ≡ some (b, l', with_closed m')
receiving-unnoticed n l l' b m m' [] true e = ap closed_behind e
receiving-unnoticed n l l' b m m' [] false e = cc
receiving-unnoticed n l l' b m m' (c ∷ bytes) closed e = ap closed_behind e

-- By whether the descriptor is that of the client's socket.
receiving_at-unnoticed :
    (own : Bool) (n : ℕ) (l l' : Terminal) (b : Ret Bytes) (m m' : Link)
    → (if own
        then receive (λ s. record m { to_client = s }) l n m.to_client.bytes m.to_client.closed
        else some (fail ebadf, l, m))
      ≡ some (b, l', m')
    → (if own
        then receive (λ s. record m { to_client = s }) l n m.to_client.bytes true
        else some (fail ebadf, l, with_closed m))
      ≡ some (b, l', with_closed m')
receiving_at-unnoticed true n l l' b m m' e =
    receiving-unnoticed n l l' b m m' m.to_client.bytes m.to_client.closed e
receiving_at-unnoticed false n l l' b m m' e = ap closed_behind e

closing-unnoticed :
    (d : Call) (l l' : Terminal) (b : Reply d) (m m' : Link)
    → client_side d l m ≡ some (b, l', m')
    → client_side d l (with_closed m) ≡ some (b, l', with_closed m')
closing-unnoticed (Call.recv fd n) l l' b m m' e = receiving_at-unnoticed (fd == 3) n l l' b m m' e
closing-unnoticed (Call.read fd n) l l' b m m' e = receiving_at-unnoticed (fd == 3) n l l' b m m' e
closing-unnoticed d l l' b m m' e = ground arith

-- What the client does can neither prevent the `close` of the server nor notice it.
pub closing-Independent :
    (r : List Shown)
    → Independent server_side client_side (Call.close 4) r r (ok 0) (λ m. Unit {0}) with_closed
closing-Independent r = record {
  now = λ m h. refl;
  kept = λ d l l' b m m' h e. tt;
  unnoticed = λ d l l' b m m' h e. closing-unnoticed d l l' b m m' e;
}
