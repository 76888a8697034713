-- ===== src/Practica/Tests.antt =====
-- The pool, a thread and a run of the server at concrete inputs, and the theorems at them.
use cese_sopg_github_io.Common.{
  ℕ, ◌<◌, ◌≡◌, refl, Bool, true, false, List, [], ◌∷◌, arith, replicate, moved,
}
use cese_sopg_github_io.Memory.{Bytes, codes}
use cese_sopg_github_io.Posix.{ok}
use cese_sopg_github_io.Practica.ClientData.{
  ClientData, search_loop, cd_get_free_index, IsFirstFree, cd_get_free_index_lem,
}
use cese_sopg_github_io.Practica.Worker.{on_read, answer, on_read-lem}
use cese_sopg_github_io.Practica.Server.{
  pool_len, accepting, marking, storing, creating, reading, not_created, serving, Server, accept,
  found_free, mark_busy, store_fd, create, Reach, start, later,
}
use cese_sopg_github_io.Practica.Server.Safety.{slot_exclusive, serves_own}
use cese_sopg_github_io.Practica.Client
use cese_sopg_github_io.Practica.Connection.{connection}
use cese_sopg_github_io.Practica.Session.{BothDone, shown_by_client, server_shows, client-BothDone}
use cese_sopg_github_io.Processes.{Ends}
use cese_sopg_github_io.Processes.Connection.{idle}
use cese_sopg_github_io.Processes.Sockets.{client_side, server_side}
use cese_sopg_github_io.Tcp.Session.{terminal}

abbrev entry : Bool → ClientData
entry free = record { fd = 0; thread = 0; free = free }

abbrev one_free : List ClientData
one_free = entry false ∷ entry true ∷ entry true ∷ []

cd_get_free_index_lem_example : IsFirstFree one_free 3 (cd_get_free_index one_free 3)
cd_get_free_index_lem_example = cd_get_free_index_lem one_free 3 (omega arith)

abbrev garbage : Bytes
garbage = replicate 128 7

on_read-lem_example : on_read garbage 5 (ok (codes "hola")) ≡ answer 5 4 (codes "hola")
on_read-lem_example = on_read-lem garbage 5 (codes "hola") refl (omega arith)

abbrev all_free : ℕ → ClientData
all_free i = entry true

abbrev started : Server
started = record { pool = all_free; main = accepting; worker = λ _. not_created }

-- `main` has accepted the connection 7 and marked the first entry.
abbrev marked : Server
marked = record started { pool = moved all_free 0 (entry false); main = storing 7 0 }

reach_marking : Reach (record started { main = marking 7 0 })
reach_marking =
    later (later (start all_free (λ i lt. refl)) (accept 7 refl))
      (found_free refl (omega arith) refl)

reach_marked : Reach marked
reach_marked = later reach_marking (mark_busy refl)

abbrev filled : Server
filled = record marked {
  pool = moved marked.pool 0 (record (marked.pool 0) { fd = 7 });
  main = creating 7 0;
}

-- Thread 0 serves the connection in the first entry.
abbrev created : Server
created = record filled {
  pool = moved filled.pool 0 (record (filled.pool 0) { thread = 0 });
  main = accepting;
  worker = moved filled.worker 0 (serving reading 0 7);
}

reach_created : Reach created
reach_created = later (later reach_marked (store_fd refl)) (create 0 refl refl)

slot_exclusive_example : ◌≡◌ {A = ℕ} 0 0
slot_exclusive_example =
    slot_exclusive {s = created} 0 0 0 7 7 reach_created (reading, refl) (reading, refl)

serves_own_example : (0 < pool_len) × ((created.pool 0).free ≡ false) × ((created.pool 0).fd ≡ 7)
serves_own_example = serves_own {s = created} 0 0 7 reach_created (reading, refl)

client-BothDone_example :
    Ends client_side server_side
      (BothDone
        (shown_by_client (codes "buenas\n"))
        (server_shows (codes "127.0.0.1") (codes "buenas\n")))
      (Client.main garbage)
      (terminal (codes "buenas\n" ∷ []) [])
      (connection (λ fd. codes "127.0.0.1") (entry false ∷ replicate 99 (entry true)) garbage 3)
      []
      idle
unfolding cd_get_free_index search_loop
client-BothDone_example =
    client-BothDone garbage b'b' (codes "uenas\n") refl (omega arith) refl (λ fd. codes "127.0.0.1")
      garbage refl [] (entry false ∷ replicate 99 (entry true)) 1 refl
