-- ===== src/Practica/ClientData.antt =====
-- material-clases/clase6/practica_resolviendo/clientdata.c: the pool of client data.
use cese_sopg_github_io.Common.{
  ℕ, zero, suc, ◌+◌, ◌≤◌, ◌<◌, ◌≡◌, refl, ap, ap₂, ◌∙◌, subst, sym, Bool, true, false, Bool-cases,
  inl, inr, Option, none, some, List, [], ◌∷◌, ◌++◌, map, append_assoc, length, get_elem?, set,
  take, drop, arith, length-append, set-append_length,
}

-- `clientdata`
pub record ClientData : Type 0 where
  pub fd : ℕ
  pub thread : ℕ
  pub free : Bool

-- `clients[i].free = true` for `rounds` indices from `i` on; `none` is an access outside the array.
init_loop : ℕ → ℕ → List ClientData → Option (List ClientData)
init_loop zero i clients = some clients
init_loop (suc rounds) i clients = elim (get_elem? clients i) [
  | none ↦ none
  | some c ↦ init_loop rounds (i + 1) (set clients i (record c { free = true }))
]

pub cd_init : List ClientData → ℕ → Option (List ClientData)
cd_init clients len = init_loop len 0 clients

-- What `cd_getFreeIndex` returns, or an access outside the array.
pub data FreeIndex : Type 0 where
  index : ℕ → FreeIndex
  minus_one : FreeIndex
  out_of_bounds : FreeIndex

unfoldable pub search_loop : ℕ → ℕ → List ClientData → FreeIndex
search_loop zero i clients = minus_one
search_loop (suc rounds) i clients = elim (get_elem? clients i) [
  | none ↦ out_of_bounds
  | some c ↦ elim c.free [ true ↦ index i | false ↦ search_loop rounds (i + 1) clients ]
]

unfoldable pub cd_get_free_index : List ClientData → ℕ → FreeIndex
cd_get_free_index clients len = search_loop len 0 clients

abbrev pub freed : ClientData → ClientData
freed c = record c { free = true }

get_elem?-middle :
    (done : List ClientData) (c : ClientData) (rest : List ClientData)
    → get_elem? (done ++ (c ∷ rest)) (length done) ≡ some c
get_elem?-middle [] c rest = refl
get_elem?-middle (d ∷ done) c rest = get_elem?-middle done c rest

-- The loops seen from the part of the array that is done.
length-snoc :
    (done : List ClientData) (c : ClientData) → length (done ++ (c ∷ [])) ≡ length done + 1
length-snoc done c = length-append done (c ∷ [])

init_loop-at :
    (rounds i : ℕ) (clients : List ClientData) (c : ClientData)
    → get_elem? clients i ≡ some c
    → init_loop (suc rounds) i clients ≡ init_loop rounds (i + 1) (set clients i (freed c))
unfolding init_loop
init_loop-at rounds i clients c e = rw (e, init_loop) refl

init_loop-step :
    (rounds : ℕ) (done : List ClientData) (c : ClientData) (rest : List ClientData)
    → init_loop (suc rounds) (length done) (done ++ (c ∷ rest))
      ≡ init_loop rounds (length (done ++ (freed c ∷ []))) ((done ++ (freed c ∷ [])) ++ rest)
init_loop-step rounds done c rest =
    init_loop-at rounds (length done) (done ++ (c ∷ rest)) c (get_elem?-middle done c rest)
    ∙ ap₂ (init_loop rounds) (sym (length-snoc done (freed c))) (
        set-append_length (length done) done c (freed c) rest refl
        ∙ sym (append_assoc done (freed c ∷ []) rest))

init_loop-middle :
    (rounds : ℕ) (done rest : List ClientData)
    → rounds ≤ length rest
    → init_loop rounds (length done) (done ++ rest)
      ≡ some (done ++ (map freed (take rounds rest) ++ drop rounds rest))
unfolding init_loop
init_loop-middle zero done rest h = refl
init_loop-middle (suc rounds) done [] h = absurd (omega arith)
init_loop-middle (suc rounds) done (c ∷ rest) h =
    init_loop-step rounds done c rest
    ∙ init_loop-middle rounds (done ++ (freed c ∷ [])) rest (omega arith)
    ∙ ap some (append_assoc done (freed c ∷ []) (map freed (take rounds rest) ++ drop rounds rest))

-- On an array of at least `len` entries, `cd_init` stays inside it, frees the first `len` entries
-- and leaves the others alone.
pub cd_init_lem :
    (clients : List ClientData) (len : ℕ)
    → len ≤ length clients
    → cd_init clients len ≡ some (map freed (take len clients) ++ drop len clients)
unfolding cd_init
cd_init_lem clients len h = init_loop-middle len [] clients h

abbrev pub AllBusy : List ClientData → Type 0
AllBusy [] = Unit
AllBusy (c ∷ clients) = (c.free ≡ false) × AllBusy clients

abbrev pub IsFreeAt : List ClientData → ℕ → Type 0
IsFreeAt [] i = ⊥
IsFreeAt (c ∷ clients) zero = c.free ≡ true
IsFreeAt (c ∷ clients) (suc i) = IsFreeAt clients i

-- The least index of a free entry below `len`, or -1 if there is none.
abbrev pub IsFirstFree : List ClientData → ℕ → FreeIndex → Type 0
IsFirstFree clients len (index i) = (i < len) × IsFreeAt clients i × AllBusy (take i clients)
IsFirstFree clients len minus_one = AllBusy (take len clients)
IsFirstFree clients len out_of_bounds = ⊥

-- What the search finds from index `i` on, `clients` being what lies there.
abbrev IsFirstFrom : ℕ → List ClientData → ℕ → FreeIndex → Type 0
IsFirstFrom i clients rounds (index k) =
    (j : ℕ) × (k ≡ i + j) × IsFirstFree clients rounds (index j)
IsFirstFrom i clients rounds minus_one = AllBusy (take rounds clients)
IsFirstFrom i clients rounds out_of_bounds = ⊥

first-cons :
    (i rounds : ℕ) (c : ClientData) (clients : List ClientData) (r : FreeIndex)
    → c.free ≡ false
    → IsFirstFrom (i + 1) clients rounds r
    → IsFirstFrom i (c ∷ clients) (suc rounds) r
first-cons i rounds c clients (index k) busy (j, e, (lt, free, before)) =
    (suc j, omega arith, (omega arith, free, (busy, before)))
first-cons i rounds c clients minus_one busy h = (busy, h)
first-cons i rounds c clients out_of_bounds busy h = h

search_loop-busy :
    (rounds i : ℕ) (clients : List ClientData) (c : ClientData)
    → get_elem? clients i ≡ some c
    → c.free ≡ false
    → search_loop (suc rounds) i clients ≡ search_loop rounds (i + 1) clients
unfolding search_loop
search_loop-busy rounds i clients c e busy = rw (e, search_loop, busy) refl

search_loop-free :
    (rounds i : ℕ) (clients : List ClientData) (c : ClientData)
    → get_elem? clients i ≡ some c
    → c.free ≡ true
    → search_loop (suc rounds) i clients ≡ index i
unfolding search_loop
search_loop-free rounds i clients c e free = rw (e, search_loop, free) refl

-- The array is what is behind `i`, seen as the part that is done and the rest.
search_loop-next :
    (rounds : ℕ) (done : List ClientData) (c : ClientData) (rest : List ClientData)
    → c.free ≡ false
    → search_loop (suc rounds) (length done) (done ++ (c ∷ rest))
      ≡ search_loop rounds (length (done ++ (c ∷ []))) ((done ++ (c ∷ [])) ++ rest)
search_loop-next rounds done c rest busy =
    search_loop-busy rounds (length done) (done ++ (c ∷ rest)) c (get_elem?-middle done c rest) busy
    ∙ ap₂ (search_loop rounds) (sym (length-snoc done c)) (sym (append_assoc done (c ∷ []) rest))

search_loop-first :
    (rounds : ℕ) (done rest : List ClientData)
    → rounds ≤ length rest
    → IsFirstFrom (length done) rest rounds (search_loop rounds (length done) (done ++ rest))
unfolding search_loop
search_loop-first zero done rest h = tt
search_loop-first (suc rounds) done [] h = absurd (omega arith)
search_loop-first (suc rounds) done (c ∷ rest) h = elim (Bool-cases c.free) [
  | inl free ↦
      subst (IsFirstFrom (length done) (c ∷ rest) (suc rounds))
        (sym (
          search_loop-free rounds (length done) (done ++ (c ∷ rest)) c
            (get_elem?-middle done c rest) free))
        (0, omega arith, (omega arith, free, tt))
  | inr busy ↦
      let r = search_loop rounds (length (done ++ (c ∷ []))) ((done ++ (c ∷ [])) ++ rest) in
      subst (IsFirstFrom (length done) (c ∷ rest) (suc rounds))
        (sym (search_loop-next rounds done c rest busy))
        (first-cons (length done) rounds c rest r busy (
          subst (λ i. IsFirstFrom i rest rounds r) (length-snoc done c)
            (search_loop-first rounds (done ++ (c ∷ [])) rest (omega arith))))
]

from_zero :
    (clients : List ClientData) (len : ℕ) (r : FreeIndex)
    → IsFirstFrom 0 clients len r
    → IsFirstFree clients len r
from_zero clients len (index k) (j, e, h) =
    subst (λ i. IsFirstFree clients len (index i)) (let e' : j ≡ k = omega arith in e') h
from_zero clients len minus_one h = h
from_zero clients len out_of_bounds h = h

-- On an array of at least `len` entries, `cd_getFreeIndex` stays inside it and returns the least index
-- below `len` of a free entry, or -1 if the first `len` are all busy.
pub cd_get_free_index_lem :
    (clients : List ClientData) (len : ℕ)
    → len ≤ length clients
    → IsFirstFree clients len (cd_get_free_index clients len)
unfolding cd_get_free_index
cd_get_free_index_lem clients len h =
    from_zero clients len (search_loop len 0 clients) (search_loop-first len [] clients h)
