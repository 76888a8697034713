-- ===== src/Mutex/Ok.antt =====
-- material-clases/clase6/ejemplo-mutex/main_ok.c. A step is one load or store of a counter, or one call on
-- the mutex; `data.a++` is a load and a store.
pub mod Equal
use cese_sopg_github_io.Common.{ℕ, zero, suc, ◌+◌, ◌<◌, ◌≡◌, List, [], ◌∷◌, ◌++◌, moved}
use cese_sopg_github_io.Mutex.{Data, Shown}

-- Who holds the mutex.
pub data Mutex : Type 0 where
  unlocked : Mutex
  by_thread : ℕ → Mutex
  by_main : Mutex

-- Where a thread stands in a pass of `while (1)`, with the value that an increment has loaded.
pub data Thread : Type 0 where
  lock : Thread  -- before pthread_mutex_lock
  load_a : Thread
  store_a : (x : ℕ) → Thread
  load_b : Thread
  store_b : (x : ℕ) → Thread
  unlock : Thread  -- before pthread_mutex_unlock

-- Where `main` stands, with its locals `a` and `b`.
pub data Main : Type 0 where
  lock_main : Main
  read_a : Main
  read_b : (a : ℕ) → Main
  unlock_main : (a b : ℕ) → Main
  print : (a b : ℕ) → Main

pub record System : Type 0 where
  pub data_ab : Data
  pub mutex : Mutex
  pub thread : ℕ → Thread
  pub main : Main
  pub printed : List Shown

-- A step of thread `i`.
pub data ThreadMove (i : ℕ) : Data → Mutex → Thread → Data → Mutex → Thread → Type 0 where
  takes : {d : Data} → ThreadMove i d unlocked lock d (by_thread i) load_a
  loads_a : {d : Data} {m : Mutex} → ThreadMove i d m load_a d m (store_a d.a)
  stores_a :
      {d : Data} {m : Mutex} {x : ℕ}
      → ThreadMove i d m (store_a x) (record d { a = x + 1 }) m load_b
  loads_b : {d : Data} {m : Mutex} → ThreadMove i d m load_b d m (store_b d.b)
  stores_b :
      {d : Data} {m : Mutex} {x : ℕ}
      → ThreadMove i d m (store_b x) (record d { b = x + 1 }) m unlock
  gives_back : {d : Data} {m : Mutex} → ThreadMove i d m unlock d unlocked lock

-- A step of `main` at the counters `d`, with what has been printed.
pub data MainMove (d : Data) : Mutex → Main → List Shown → Mutex → Main → List Shown → Type 0 where
  main_takes : {p : List Shown} → MainMove d unlocked lock_main p by_main read_a p
  reads_a : {m : Mutex} {p : List Shown} → MainMove d m read_a p m (read_b d.a) p
  reads_b : {m : Mutex} {a : ℕ} {p : List Shown} → MainMove d m (read_b a) p m (unlock_main a d.b) p
  main_gives_back :
      {m : Mutex} {a b : ℕ} {p : List Shown}
      → MainMove d m (unlock_main a b) p unlocked (print a b) p
  prints :
      {m : Mutex} {a b : ℕ} {p : List Shown}
      → MainMove d m (print a b) p m lock_main (p ++ (record { shown_a = a; shown_b = b } ∷ []))

pub data Step (s : System) : System → Type 0 where
  run_thread :
      (i : ℕ) {d : Data} {m : Mutex} {t : Thread}
      → i < 2
      → ThreadMove i s.data_ab s.mutex (s.thread i) d m t
      → Step s (record s { data_ab = d; mutex = m; thread = moved s.thread i t })
  run_main :
      {m : Mutex} {t : Main} {p : List Shown}
      → MainMove s.data_ab s.mutex s.main s.printed m t p
      → Step s (record s { mutex = m; main = t; printed = p })

-- A thread that is not created yet stands at its beginning.
abbrev pub init : System
init = record {
  data_ab = record { a = 0; b = 0 };
  mutex = unlocked;
  thread = λ _. lock;
  main = lock_main;
  printed = [];
}

pub data Reach : System → Type 0 where
  start : Reach init
  later : {s t : System} → Reach s → Step s t → Reach t
