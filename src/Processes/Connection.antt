-- ===== src/Processes/Connection.antt =====
-- The connection between a client and a server, which keeps no message boundaries, as the two ends see it.
use cese_sopg_github_io.Common.{
  ℕ, ◌+◌, ◌-◌, ◌≤◌, ◌≡◌, ◌≢◌, refl, ap₂, Bool, true, false, Option, none, some, [], ◌∷◌, ◌++◌,
  length, take, drop, if◌then◌else◌, ltb, take_of_le, drop_of_le,
}
use cese_sopg_github_io.Memory.{Bytes}
use cese_sopg_github_io.Posix.{Ret, ok}

-- One direction of the connection.
pub record Stream : Type 0 where
  pub bytes : Bytes
  pub closed : Bool

-- The connections that wait for `accept`, and the two directions of the one in use.
pub record Link : Type 0 where
  pub waiting : ℕ
  pub to_server : Stream
  pub to_client : Stream

-- What is there, at most `n` bytes; where nothing is there the call waits, unless the other end has closed.
abbrev pub receive :
    {L : Type 0} → (Stream → Link) → L → ℕ → Bytes → Bool → Option (Ret Bytes × L × Link)
receive put l n (b ∷ bs) closed =
    some (ok (take n (b ∷ bs)), l, put (record { bytes = drop n (b ∷ bs); closed = closed }))
receive put l n [] true = some (ok [], l, put (record { bytes = []; closed = true }))
receive put l n [] false = none

abbrev pub sent : Stream → Bytes → Stream
sent s bs = record s { bytes = s.bytes ++ bs }

module _ {L : Type 0} where
  abbrev pub connect_to : L → Link → Option (Ret ℕ × L × Link)
  connect_to l m = some (ok 0, l, record m { waiting = m.waiting + 1 })

  abbrev pub accept_from : L → Link → Option (Ret ℕ × L × Link)
  accept_from l m =
      if ltb 0 m.waiting then some (ok 4, l, record m { waiting = m.waiting - 1 }) else none

  abbrev pub send_to_server : Bytes → L → Link → Option (Ret ℕ × L × Link)
  send_to_server bs l m = some (ok (length bs), l, record m { to_server = sent m.to_server bs })

  abbrev pub send_to_client : Bytes → L → Link → Option (Ret ℕ × L × Link)
  send_to_client bs l m = some (ok (length bs), l, record m { to_client = sent m.to_client bs })

  abbrev pub receive_from_server : ℕ → L → Link → Option (Ret Bytes × L × Link)
  receive_from_server n l m =
      receive (λ s. record m { to_client = s }) l n m.to_client.bytes m.to_client.closed

  abbrev pub receive_from_client : ℕ → L → Link → Option (Ret Bytes × L × Link)
  receive_from_client n l m =
      receive (λ s. record m { to_server = s }) l n m.to_server.bytes m.to_server.closed

  abbrev pub client_closes : L → Link → Option (Ret ℕ × L × Link)
  client_closes l m = some (ok 0, l, record m { to_server = record m.to_server { closed = true } })

  abbrev pub server_closes : L → Link → Option (Ret ℕ × L × Link)
  server_closes l m = some (ok 0, l, record m { to_client = record m.to_client { closed = true } })

-- Nobody is connected to the server.
abbrev pub idle : Link
idle = record {
  waiting = 0;
  to_server = record { bytes = []; closed = false };
  to_client = record { bytes = []; closed = false };
}

-- The connection is in use, with what is under way in each direction.
abbrev pub under_way : Bytes → Bytes → Link
under_way a b = record {
  waiting = 0;
  to_server = record { bytes = a; closed = false };
  to_client = record { bytes = b; closed = false };
}

-- A message that fits is received as a whole.
pub receive-whole :
    {L : Type 0} (put : Stream → Link) (own : L) (n : ℕ) (l : Bytes)
    → l ≢ []
    → length l ≤ n
    → receive put own n l false ≡ some (ok l, own, put (record { bytes = []; closed = false }))
receive-whole put own n [] some_input h = absurd (some_input refl)
receive-whole put own n (b ∷ l) some_input h =
    ap₂ (λ (x y : Bytes). some (ok x, own, put (record { bytes = y; closed = false })))
      (take_of_le n (b ∷ l) h) (drop_of_le n (b ∷ l) h)
