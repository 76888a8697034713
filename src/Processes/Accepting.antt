-- ===== src/Processes/Accepting.antt =====
-- The `accept` of a connection that waits.
use cese_sopg_github_io.Common.{◌-◌, ◌<◌, ◌≡◌, some, List, arith}
use cese_sopg_github_io.Posix.{Call, Reply, ok}
use cese_sopg_github_io.Posix.Terminal.{Shown, Terminal}
use cese_sopg_github_io.Processes.Connection.{Link}
use cese_sopg_github_io.Processes.Laws.{Independent}
use cese_sopg_github_io.Processes.Sockets.{client_side, server_side}

-- The `accept` of the server: what the client does can neither prevent nor notice it.
accepting-kept :
    (d : Call) (l l' : Terminal) (b : Reply d) (m m' : Link)
    → 0 < m.waiting
    → client_side d l m ≡ some (b, l', m')
    → 0 < m'.waiting
accepting-kept (Call.recv fd n) l l' b m m' h e = ground arith
accepting-kept d l l' b m m' h e = ground arith

abbrev pub with_accepted : Link → Link
with_accepted m = record m { waiting = m.waiting - 1 }

accepting-unnoticed :
    (d : Call) (l l' : Terminal) (b : Reply d) (m m' : Link)
    → 0 < m.waiting
    → client_side d l m ≡ some (b, l', m')
    → client_side d l (with_accepted m) ≡ some (b, l', with_accepted m')
accepting-unnoticed (Call.recv fd n) l l' b m m' h e = ground arith
accepting-unnoticed d l l' b m m' h e = ground arith

pub accepting-Independent :
    (r : List Shown)
    → Independent server_side client_side
        (Call.accept 3)
        r
        r
        (ok 4)
        (λ m. 0 < m.waiting)
        with_accepted
accepting-Independent r = record {
  now = λ m h. ground arith;
  kept = accepting-kept;
  unnoticed = accepting-unnoticed;
}
