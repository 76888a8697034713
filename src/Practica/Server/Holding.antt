-- ===== src/Practica/Server/Holding.antt =====
-- material-clases/clase6/practica_resolviendo/server_tcp.c: who holds an entry of the pool, and what
-- `main` does with one that nobody holds.
use cese_sopg_github_io.Common.{ℕ, ◌<◌, ◌≡◌, ◌≢◌, subst, sym, true, false, moved, ℕ_discrete, arith}
use cese_sopg_github_io.Practica.ClientData.{ClientData}
use cese_sopg_github_io.Practica.Server.{
  pool_len, Main, accepting, searching, marking, storing, creating, Stage, Worker, serving,
  returned,
}

-- The thread works on `&pool[i]` for the connection `fd`.
abbrev pub Holds : Worker → ℕ → ℕ → Type 0
Holds w i fd = (p : Stage) × (w ≡ serving p i fd)

-- No thread works on the slot.
abbrev pub NoHolder : (ℕ → Worker) → ℕ → Type 0
NoHolder ws i = (t fd : ℕ) → Holds (ws t) i fd → ⊥

-- What `main` knows of the slot that it is about to use.
abbrev pub MainReady : (ℕ → ClientData) → (ℕ → Worker) → Main → Type 0
MainReady pool ws (marking newfd i) = (i < pool_len) × ((pool i).free ≡ true)
MainReady pool ws (storing newfd i) = (i < pool_len) × ((pool i).free ≡ false) × NoHolder ws i
MainReady pool ws (creating newfd i) =
    (i < pool_len) × ((pool i).free ≡ false) × ((pool i).fd ≡ newfd) × NoHolder ws i
MainReady pool ws _ = Unit

-- The slot is taken, and holds the connection.
abbrev pub IsTaken : (ℕ → ClientData) → ℕ → ℕ → Type 0
IsTaken pool i fd = (i < pool_len) × ((pool i).free ≡ false) × ((pool i).fd ≡ fd)

pub record Inv (pool : ℕ → ClientData) (m : Main) (ws : ℕ → Worker) : Type 0 where
  pub held : (t i fd : ℕ) → Holds (ws t) i fd → IsTaken pool i fd
  pub alone : (t u i fd fd' : ℕ) → Holds (ws t) i fd → Holds (ws u) i fd' → t ≡ u
  pub ready : MainReady pool ws m

-- Threads that hold no more than they held.
abbrev pub Fewer : (ℕ → Worker) → (ℕ → Worker) → Type 0
Fewer ws ws' = (t i fd : ℕ) → Holds (ws' t) i fd → Holds (ws t) i fd

pub ready-Fewer :
    (pool : ℕ → ClientData) (ws ws' : ℕ → Worker) (m : Main)
    → Fewer ws ws'
    → MainReady pool ws m
    → MainReady pool ws' m
ready-Fewer pool ws ws' accepting less h = h
ready-Fewer pool ws ws' (searching newfd i) less h = h
ready-Fewer pool ws ws' (marking newfd i) less h = h
ready-Fewer pool ws ws' (storing newfd i) less (lt, busy, none_holds) =
    (lt, busy, λ t fd x. none_holds t fd (less t i fd x))
ready-Fewer pool ws ws' (creating newfd i) less (lt, busy, eq, none_holds) =
    (lt, busy, eq, λ t fd x. none_holds t fd (less t i fd x))

pub Inv-Fewer :
    {pool : ℕ → ClientData} {m : Main} (ws ws' : ℕ → Worker)
    → Fewer ws ws'
    → Inv pool m ws
    → Inv pool m ws'
Inv-Fewer {pool} {m} ws ws' less inv = record {
  held = λ t i fd x. inv.held t i fd (less t i fd x);
  alone = λ t u i fd fd' x y. inv.alone t u i fd fd' (less t i fd x) (less u i fd' y);
  ready = ready-Fewer pool ws ws' m less inv.ready;
}

-- `main` goes on without the pool.
pub Inv-main :
    {pool : ℕ → ClientData} {m m' : Main} {ws : ℕ → Worker}
    → MainReady pool ws m'
    → Inv pool m ws
    → Inv pool m' ws
Inv-main h inv = record { held = inv.held; alone = inv.alone; ready = h }

pub Fewer-use :
    (ws : ℕ → Worker) (p p' : Stage) (i fd t : ℕ)
    → ws t ≡ serving p i fd
    → Fewer ws (moved ws t (serving p' i fd))
Fewer-use ws p p' i fd t e u j c (q, x) = elim (ℕ_discrete t u) [
  | yes same ↦ (p, grind arith)
  | no other ↦ (q, ground arith)
]

pub Fewer-returned : (ws : ℕ → Worker) (t : ℕ) → Fewer ws (moved ws t returned)
Fewer-returned ws t u j c (q, x) = elim (ℕ_discrete t u) [
  | yes same ↦ absurd (grind arith)
  | no other ↦ (q, ground arith)
]

-- A change of an entry leaves the other entries as they are.
pub IsTaken-other :
    (pool : ℕ → ClientData) (i : ℕ) (c : ClientData) (j fd : ℕ)
    → i ≢ j
    → IsTaken pool j fd
    → IsTaken (moved pool i c) j fd
IsTaken-other pool i c j fd ne (lt, busy, eq) = (lt, ground arith, ground arith)

-- A slot that no thread holds may change.
pub held-moved :
    {pool : ℕ → ClientData} {m : Main} {ws : ℕ → Worker} (i : ℕ) (c : ClientData)
    → Inv pool m ws
    → NoHolder ws i
    → (t j fd : ℕ) → Holds (ws t) j fd
    → IsTaken (moved pool i c) j fd
held-moved {pool} {ws} i c inv none_holds t j fd x = elim (ℕ_discrete i j) [
  | yes same ↦ absurd (none_holds t fd (subst (λ k. Holds (ws t) k fd) (sym same) x))
  | no other ↦ IsTaken-other pool i c j fd other (inv.held t j fd x)
]

pub free-NoHolder :
    {pool : ℕ → ClientData} {m : Main} {ws : ℕ → Worker} (i : ℕ)
    → Inv pool m ws
    → (pool i).free ≡ true
    → NoHolder ws i
free-NoHolder i inv free t fd x = let (lt, busy, eq) = inv.held t i fd x in absurd (cc)

pub mark-Inv :
    {pool : ℕ → ClientData} {ws : ℕ → Worker} (newfd i : ℕ)
    → Inv pool (marking newfd i) ws
    → Inv (moved pool i (record (pool i) { free = false })) (storing newfd i) ws
mark-Inv {pool} {ws} newfd i inv =
    let (lt, free) = inv.ready in
    let none_holds : NoHolder ws i = free-NoHolder i inv free in
    record {
      held = held-moved i (record (pool i) { free = false }) inv none_holds;
      alone = inv.alone;
      ready = (lt, ground arith, none_holds);
    }

pub store-Inv :
    {pool : ℕ → ClientData} {ws : ℕ → Worker} (newfd i : ℕ)
    → Inv pool (storing newfd i) ws
    → Inv (moved pool i (record (pool i) { fd = newfd })) (creating newfd i) ws
store-Inv {pool} newfd i inv =
    let (lt, busy, none_holds) = inv.ready in
    record {
      held = held-moved i (record (pool i) { fd = newfd }) inv none_holds;
      alone = inv.alone;
      ready = (lt, ground arith, ground arith, none_holds);
    }
