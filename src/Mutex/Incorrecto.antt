-- ===== src/Mutex/Incorrecto.antt =====
-- material-clases/clase6/ejemplo-mutex/main_incorrecto.c, the program without the mutex. A step is one
-- load or store of a counter.
pub mod Drift
use cese_sopg_github_io.Common.{ℕ, zero, suc, ◌+◌, ◌^◌, ◌<◌, ◌≡◌, List, [], ◌∷◌, ◌++◌, moved}
use cese_sopg_github_io.Mutex.{Data, Shown}

-- Where a thread stands in a pass of `while (1)`, with the value that an increment has loaded.
pub data Thread : Type 0 where
  load_a : Thread
  store_a : (x : ℕ) → Thread
  load_b : Thread
  store_b : (x : ℕ) → Thread

-- Where `main` stands, with its locals `a` and `b`.
pub data Main : Type 0 where
  read_a : Main
  read_b : (a : ℕ) → Main
  print : (a b : ℕ) → Main

pub record System : Type 0 where
  pub data_ab : Data
  pub thread : ℕ → Thread
  pub main : Main
  pub printed : List Shown

-- An increment of an `int` that holds 2^31 - 1 is undefined behaviour, and has no step here.
pub data ThreadMove (d : Data) : Thread → Data → Thread → Type 0 where
  loads_a : ThreadMove d load_a d (store_a d.a)
  stores_a : {x : ℕ} → x + 1 < 2 ^ 31 → ThreadMove d (store_a x) (record d { a = x + 1 }) load_b
  loads_b : ThreadMove d load_b d (store_b d.b)
  stores_b : {x : ℕ} → x + 1 < 2 ^ 31 → ThreadMove d (store_b x) (record d { b = x + 1 }) load_a

pub data MainMove (d : Data) : Main → List Shown → Main → List Shown → Type 0 where
  reads_a : {p : List Shown} → MainMove d read_a p (read_b d.a) p
  reads_b : {a : ℕ} {p : List Shown} → MainMove d (read_b a) p (print a d.b) p
  prints :
      {a b : ℕ} {p : List Shown}
      → MainMove d (print a b) p read_a (p ++ (record { shown_a = a; shown_b = b } ∷ []))

pub data Step (s : System) : System → Type 0 where
  run_thread :
      (i : ℕ) {d : Data} {t : Thread}
      → i < 2
      → ThreadMove s.data_ab (s.thread i) d t
      → Step s (record s { data_ab = d; thread = moved s.thread i t })
  run_main :
      {t : Main} {p : List Shown}
      → MainMove s.data_ab s.main s.printed t p
      → Step s (record s { main = t; printed = p })

abbrev pub init : System
init = record {
  data_ab = record { a = 0; b = 0 };
  thread = λ _. load_a;
  main = read_a;
  printed = [];
}

pub data Reach : System → Type 0 where
  start : Reach init
  later : {s t : System} → Reach s → Step s t → Reach t
