-- ===== src/Practica/Server/Invariant.antt =====
-- material-clases/clase6/practica_resolviendo/server_tcp.c: the invariant of the pool and the threads,
-- step by step.
use cese_sopg_github_io.Common.{
  ℕ, ◌≡◌, ◌≢◌, ◌⊎◌, inl, inr, ap, ◌∙◌, subst, sym, true, moved, ℕ_discrete, arith,
}
use cese_sopg_github_io.Practica.ClientData.{ClientData}
use cese_sopg_github_io.Practica.Server.{
  Main, accepting, searching, marking, storing, creating, Worker, serving, returned, Server, Step,
  accept, skip_busy, found_free, discard, mark_busy, store_fd, create, create_fails, use_data,
  release, Reach, start, later, reading, releasing,
}
use cese_sopg_github_io.Practica.Server.Holding.{
  Inv, Holds, MainReady, IsTaken, ready-Fewer, Inv-Fewer, Inv-main, Fewer-use, Fewer-returned,
  IsTaken-other, mark-Inv, store-Inv,
}

-- Who holds a slot once thread `t` has been created with `&pool[i]`.
created-Holds :
    (ws : ℕ → Worker) (t newfd i u j fd : ℕ)
    → Holds (moved ws t (serving reading i newfd) u) j fd
    → ((u ≡ t) × (j ≡ i) × (fd ≡ newfd)) ⊎ Holds (ws u) j fd
created-Holds ws t newfd i u j fd (p, e) = elim (ℕ_discrete t u) [
  | yes same ↦ inl (sym same, grind arith, grind arith)
  | no other ↦ inr (p, ground arith)
]

-- The number of the thread is stored in the entry.
thread-IsTaken :
    (pool : ℕ → ClientData) (i t j fd : ℕ)
    → IsTaken pool j fd
    → IsTaken (moved pool i (record (pool i) { thread = t })) j fd
thread-IsTaken pool i t j fd (lt, busy, eq) = elim (ℕ_discrete i j) [
  | yes same ↦
      let (lt', busy', eq') = subst (λ k. IsTaken pool k fd) (sym same) (lt, busy, eq) in
      subst (λ k. IsTaken (moved pool i (record (pool i) { thread = t })) k fd) same
        (lt', ground arith, ground arith)
  | no other ↦ IsTaken-other pool i (record (pool i) { thread = t }) j fd other (lt, busy, eq)
]

create-Inv :
    {pool : ℕ → ClientData} {ws : ℕ → Worker} (newfd i t : ℕ)
    → Inv pool (creating newfd i) ws
    → Inv
        (moved pool i (record (pool i) { thread = t }))
        accepting
        (moved ws t (serving reading i newfd))
create-Inv {pool} {ws} newfd i t inv =
    let (lt, busy, eq, none_holds) = inv.ready in
    record {
      held = λ u j fd x. elim (created-Holds ws t newfd i u j fd x) [
        | inl (a, b, c) ↦
            thread-IsTaken pool i t j fd
              (subst (λ k. IsTaken pool k fd) (sym b) (lt, busy, eq ∙ sym c))
        | inr y ↦ thread-IsTaken pool i t j fd (inv.held u j fd y)
      ];
      alone = λ u v j fd fd' x y. elim (created-Holds ws t newfd i u j fd x) [
        | inl (a, b, c) ↦ elim (created-Holds ws t newfd i v j fd' y) [
          | inl (a', b', c') ↦ a ∙ sym a'
          | inr y' ↦ absurd (none_holds v fd' (subst (λ k. Holds (ws v) k fd') b y'))
        ]
        | inr x' ↦ elim (created-Holds ws t newfd i v j fd' y) [
          | inl (a', b', c') ↦ absurd (none_holds u fd (subst (λ k. Holds (ws u) k fd) b' x'))
          | inr y' ↦ inv.alone u v j fd fd' x' y'
        ]
      ];
      ready = tt;
    }

-- `main` finds what it knew of its slot when a thread gives up another, or none at all.
ready-release :
    (pool : ℕ → ClientData) (ws : ℕ → Worker) (m : Main) (i fd t : ℕ)
    → ws t ≡ serving releasing i fd
    → MainReady pool ws m
    → MainReady (moved pool i (record (pool i) { free = true })) ws m
ready-release pool ws accepting i fd t e h = h
ready-release pool ws (searching newfd k) i fd t e h = h
ready-release pool ws (marking newfd k) i fd t e (lt, free) = (lt, ground arith)
ready-release pool ws (storing newfd k) i fd t e (lt, busy, none_holds) =
    let other : i ≢ k = λ same. none_holds t fd (releasing, grind arith) in
    (lt, ground arith, none_holds)
ready-release pool ws (creating newfd k) i fd t e (lt, busy, eq, none_holds) =
    let other : i ≢ k = λ same. none_holds t fd (releasing, grind arith) in
    (lt, ground arith, ground arith, none_holds)

still-Holds :
    (ws : ℕ → Worker) (t u j fd : ℕ)
    → Holds (moved ws t returned u) j fd
    → (t ≢ u) × Holds (ws u) j fd
still-Holds ws t u j fd (p, e) = elim (ℕ_discrete t u) [
  | yes same ↦ absurd (grind arith)
  | no other ↦ (other, (p, ground arith))
]

-- The thread that returns was the only one on its slot.
release-Inv :
    {pool : ℕ → ClientData} {m : Main} {ws : ℕ → Worker} (i fd t : ℕ)
    → ws t ≡ serving releasing i fd
    → Inv pool m ws
    → Inv (moved pool i (record (pool i) { free = true })) m (moved ws t returned)
release-Inv {pool} {m} {ws} i fd t e inv = record {
  held = λ u j c x.
      let (other, y) = still-Holds ws t u j c x in
      let apart : i ≢ j = λ same.
        other (inv.alone t u j fd c (releasing, e ∙ ap (λ k. serving releasing k fd) same) y) in
      IsTaken-other pool i (record (pool i) { free = true }) j c apart (inv.held u j c y);
  alone = fewer.alone;
  ready =
      ready-Fewer (moved pool i (record (pool i) { free = true })) ws (moved ws t returned) m
        (Fewer-returned ws t) (ready-release pool ws m i fd t e inv.ready);
}
  where
    fewer : Inv pool m (moved ws t returned)
    fewer = Inv-Fewer ws (moved ws t returned) (Fewer-returned ws t) inv

pub at_main :
    {pool : ℕ → ClientData} {m m' : Main} {ws : ℕ → Worker}
    → m ≡ m'
    → Inv pool m ws
    → Inv pool m' ws
at_main {pool} {ws} e inv = subst (λ k. Inv pool k ws) e inv

pub Step-Inv :
    {s s' : Server} → Step s s' → Inv s.pool s.main s.worker → Inv s'.pool s'.main s'.worker
Step-Inv (accept newfd e) inv = Inv-main tt inv
Step-Inv (skip_busy e lt busy) inv = Inv-main tt inv
Step-Inv (found_free e lt free) inv = Inv-main (lt, free) inv
Step-Inv (discard e) inv = Inv-main tt inv
Step-Inv (mark_busy {newfd} {i} e) inv = mark-Inv newfd i (at_main e inv)
Step-Inv (store_fd {newfd} {i} e) inv = store-Inv newfd i (at_main e inv)
Step-Inv (create {newfd} {i} t e f) inv = create-Inv newfd i t (at_main e inv)
Step-Inv (create_fails e) inv = Inv-main tt inv
Step-Inv {s} (use_data {p} {p'} {i} {fd} t e next) inv =
    Inv-Fewer s.worker (moved s.worker t (serving p' i fd)) (Fewer-use s.worker p p' i fd t e) inv
Step-Inv (release {i} {fd} t e) inv = release-Inv i fd t e inv

-- Every reachable state has the invariant.
pub Reach-Inv : {s : Server} → Reach s → Inv s.pool s.main s.worker
Reach-Inv (start pool free) = record {
  held = λ t i fd x. absurd (cc);
  alone = λ t u i fd fd' x y. absurd (cc);
  ready = tt;
}
Reach-Inv (later r st) = Step-Inv st (Reach-Inv r)
