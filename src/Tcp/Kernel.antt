-- ===== src/Tcp/Kernel.antt =====
-- Clients under the server of material-clases/clase5/tcp: each sends one message and closes its connection
-- when it has been answered.
use cese_sopg_github_io.Common.{ℕ, ◌+◌, List, [], ◌∷◌, ◌++◌, length}
use cese_sopg_github_io.Memory.{Bytes}
use cese_sopg_github_io.Posix.{Call, Reply, unsupported, enosys, Ret, fail, ok}

-- `clients` are the messages of the clients that have not been accepted, `unread` what the accepted one has
-- sent, `answers` what was written to the clients, and `closed` the number of closed connections.
pub record World : Type 0 where
  pub clients : List Bytes
  pub unread : List Bytes
  pub answers : List Bytes
  pub closed : ℕ

abbrev accepted : World → Ret ℕ × World
accepted w = elim w.clients [
  | [] ↦ (fail enosys, w)
  | m ∷ ms ↦ (ok 4, record w { clients = ms; unread = m ∷ [] })
]

-- Behind the last message, `read` finds the connection closed.
abbrev taken : World → Ret Bytes × World
taken w = elim w.unread [ [] ↦ (ok [], w) | m ∷ ms ↦ (ok m, record w { unread = ms }) ]

abbrev pub tcp_os : (c : Call) → World → Reply c × World
tcp_os Call.getpid w = (1003, w)
tcp_os (Call.printf format args) w = (tt, w)
tcp_os (Call.perror msg) w = (tt, w)
tcp_os (Call.close fd) w = (ok 0, record w { closed = w.closed + 1 })
tcp_os (Call.read fd n) w = taken w
tcp_os (Call.write fd bs) w = (ok (length bs), record w { answers = w.answers ++ (bs ∷ []) })
tcp_os (Call.accept fd) w = accepted w
tcp_os c w = (unsupported c, w)
