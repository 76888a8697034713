-- ===== src/Practica/Server/Safety.antt =====
-- material-clases/clase6/practica_resolviendo/server_tcp.c: which threads use which entries of the
-- pool.
use cese_sopg_github_io.Common.{ℕ, ◌<◌, ◌≡◌, ◌⊎◌, inl, inr, false}
use cese_sopg_github_io.Practica.Server.{pool_len, marking, storing, Server, Reach}
use cese_sopg_github_io.Practica.Server.Holding.{Holds, NoHolder, free-NoHolder}
use cese_sopg_github_io.Practica.Server.Invariant.{at_main, Reach-Inv}

-- In every reachable state, whatever the interleaving, two threads that have not given up their
-- slot work on different slots, although no mutex guards `free`.
pub slot_exclusive :
    {s : Server} (t u i fd fd' : ℕ)
    → Reach s
    → Holds (s.worker t) i fd
    → Holds (s.worker u) i fd'
    → t ≡ u
slot_exclusive t u i fd fd' r x y = (Reach-Inv r).alone t u i fd fd' x y

-- In every reachable state, the slot of a thread that has not given it up lies in the pool, is marked
-- busy, and still holds the connection that `main` accepted for that thread: `data->fd` is its own.
pub serves_own :
    {s : Server} (t i fd : ℕ)
    → Reach s
    → Holds (s.worker t) i fd
    → (i < pool_len) × ((s.pool i).free ≡ false) × ((s.pool i).fd ≡ fd)
serves_own t i fd r x = (Reach-Inv r).held t i fd x

-- In every reachable state in which `main` is about to mark or fill the slot it found, the slot lies in the
-- pool and no thread works on it.
takes_unused :
    {s : Server} (newfd i : ℕ)
    → Reach s
    → (s.main ≡ marking newfd i) ⊎ (s.main ≡ storing newfd i)
    → (i < pool_len) × NoHolder s.worker i
takes_unused newfd i r (inl e) =
    let inv = at_main e (Reach-Inv r) in
    let (lt, free) = inv.ready in (lt, free-NoHolder i inv free)
takes_unused newfd i r (inr e) =
    let (lt, busy, none_holds) = (at_main e (Reach-Inv r)).ready in (lt, none_holds)
