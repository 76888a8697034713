-- ===== src/Practica/Server.antt =====
-- material-clases/clase6/practica_resolviendo/server_tcp.c: the accept loop of `main` and the threads
-- that serve the clients, over the shared pool. A step is one access to the pool by one thread, and
-- the threads interleave in any order; a run in which a call makes the process exit ends there.
-- `pthread_detach(cd->thread)` only reads the number of the thread from the entry, and is no step: nothing that
-- the pool or a thread does depends on what it reads.
pub mod Holding
pub mod Invariant
pub mod Safety
use cese_sopg_github_io.Common.{ℕ, zero, suc, ◌+◌, ◌<◌, ◌≡◌, Bool, true, false, moved}
use cese_sopg_github_io.Practica.ClientData.{ClientData}

-- The length of `pool`.
abbrev pub pool_len : ℕ
pool_len = 100

-- Where `main` stands in a pass of `while (1)`.
pub data Main : Type 0 where
  accepting : Main  -- before accept
  searching : (newfd i : ℕ) → Main  -- in cd_getFreeIndex, before the test of `i < len`
  marking : (newfd cd_index : ℕ) → Main  -- before cd->free = false
  storing : (newfd cd_index : ℕ) → Main  -- before cd->fd = newfd
  creating : (newfd cd_index : ℕ) → Main  -- before pthread_create

-- The uses of `data` that are left to a thread of `procesar_cliente`, the next one first.
pub data Stage : Type 0 where
  reading : Stage  -- before read(data->fd, …)
  writing : Stage  -- before write(data->fd, …)
  closing : Stage  -- before close(data->fd)
  releasing : Stage  -- before data->free = true

-- A thread that serves has `&pool[slot]` as its `data`; `fd` is the connection that `main` accepted for
-- it, which the thread itself reads from the pool.
pub data Worker : Type 0 where
  not_created : Worker
  serving : (stage : Stage) (slot fd : ℕ) → Worker
  returned : Worker

pub record Server : Type 0 where
  pub pool : ℕ → ClientData
  pub main : Main
  pub worker : ℕ → Worker

-- `next_use p p'`: the use after `p`, of the three that leave the pool as it is.
pub data NextUse : Stage → Stage → Type 0 where
  read_message : NextUse reading writing
  write_answer : NextUse writing closing
  close_connection : NextUse closing releasing

pub data Step (s : Server) : Server → Type 0 where
  accept : (newfd : ℕ) → s.main ≡ accepting → Step s (record s { main = searching newfd 0 })
  skip_busy :
      {newfd i : ℕ}
      → s.main ≡ searching newfd i
      → i < pool_len
      → (s.pool i).free ≡ false
      → Step s (record s { main = searching newfd (i + 1) })
  found_free :
      {newfd i : ℕ}
      → s.main ≡ searching newfd i
      → i < pool_len
      → (s.pool i).free ≡ true
      → Step s (record s { main = marking newfd i })
  discard : {newfd : ℕ} → s.main ≡ searching newfd pool_len → Step s (record s { main = accepting })
  mark_busy :
      {newfd i : ℕ}
      → s.main ≡ marking newfd i
      → Step s (record s {
        pool = moved s.pool i (record (s.pool i) { free = false });
        main = storing newfd i;
      })
  store_fd :
      {newfd i : ℕ}
      → s.main ≡ storing newfd i
      → Step s (record s {
        pool = moved s.pool i (record (s.pool i) { fd = newfd });
        main = creating newfd i;
      })
  -- pthread_create stores the number of the thread before the thread runs.
  create :
      {newfd i : ℕ} (t : ℕ)
      → s.main ≡ creating newfd i
      → s.worker t ≡ not_created
      → Step s (record {
        pool = moved s.pool i (record (s.pool i) { thread = t });
        main = accepting;
        worker = moved s.worker t (serving reading i newfd);
      })
  -- pthread_create fails; its result is not looked at.
  create_fails : {newfd i : ℕ} → s.main ≡ creating newfd i → Step s (record s { main = accepting })
  use_data :
      {p p' : Stage} {i fd : ℕ} (t : ℕ)
      → s.worker t ≡ serving p i fd
      → NextUse p p'
      → Step s (record s { worker = moved s.worker t (serving p' i fd) })
  release :
      {i fd : ℕ} (t : ℕ)
      → s.worker t ≡ serving releasing i fd
      → Step s (record s {
        pool = moved s.pool i (record (s.pool i) { free = true });
        worker = moved s.worker t returned;
      })

-- `main` behind `cd_init`: every entry is free.
pub data Reach : Server → Type 0 where
  start :
      (pool : ℕ → ClientData)
      → ((i : ℕ) → i < pool_len → (pool i).free ≡ true)
      → Reach (record { pool = pool; main = accepting; worker = λ _. not_created })
  later : {s t : Server} → Reach s → Step s t → Reach t
