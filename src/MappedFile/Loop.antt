-- ===== src/MappedFile/Loop.antt =====
-- material-clases/clase7/ejemplo-mmap-file/mmap.c: the loop over the mapped bytes.
use cese_sopg_github_io.Common.{
  ℕ, zero, suc, ◌+◌, ◌-◌, ◌^◌, ◌<◌, ◌≡◌, refl, ap, sym, ◌∙◌, Option, none, some, [], ◌∷◌, ◌++◌, map,
  length, if◌then◌else◌, ltb, leb, ◌==◌, ◌&&◌, get_elem?, append_assoc, arith, lt→ltb,
  length-append,
}
use cese_sopg_github_io.Memory.{Bytes, store, store-at, ◌>>=◌}

-- The capital of an ASCII letter, and another ASCII character as it is.
abbrev pub capital : ℕ → ℕ
capital c = if leb b'a' c && leb c b'z' then c - 32 else c

-- `toupper` of a `char`, which is signed: it takes the values of an unsigned char and EOF, which is -1, so it
-- has no other negative argument.
abbrev pub toupper : ℕ → Option ℕ
toupper c = if ltb c 128 then some (capital c) else if c == 255 then some 255 else none

-- `i++` on an int
abbrev increment : ℕ → Option ℕ
increment i = if ltb (i + 1) (2 ^ 31) then some (i + 1) else none

-- The passes of the loop from index `i` on.
unfoldable pub upper_loop : ℕ → ℕ → Bytes → Option Bytes
upper_loop zero i bytes = some bytes
upper_loop (suc rounds) i bytes = do
  c ← get_elem? bytes i
  upper ← toupper c
  bytes' ← store bytes i upper
  i' ← increment i
  upper_loop rounds i' bytes'

abbrev pub IsAscii : Bytes → Type 0
IsAscii [] = Unit
IsAscii (c ∷ bytes) = (c < 128) × IsAscii bytes

get_elem?-middle :
    (s : Bytes) (c : ℕ) (rest : Bytes) → get_elem? (s ++ (c ∷ rest)) (length s) ≡ some c
get_elem?-middle [] c rest = refl
get_elem?-middle (d ∷ s) c rest = get_elem?-middle s c rest

upper_loop-from :
    (s bytes : Bytes) (i : ℕ)
    → i ≡ length s
    → IsAscii bytes
    → length s + length bytes < 2 ^ 31
    → upper_loop (length bytes) i (s ++ bytes) ≡ some (s ++ map capital bytes)
unfolding upper_loop
upper_loop-from s [] i e h small = refl
upper_loop-from s (c ∷ bytes) i e h small =
    rw
      (
        ap (get_elem? (s ++ (c ∷ bytes))) e,
        get_elem?-middle s c bytes,
        lt→ltb c 128 h.0,
        store-at s bytes c (capital c) i e,
        lt→ltb (i + 1) (2 ^ 31) (omega arith),
      )
      (ap (upper_loop (length bytes) (i + 1)) (sym (append_assoc s (capital c ∷ []) bytes))
        ∙ upper_loop-from (s ++ (capital c ∷ [])) bytes (i + 1)
            (omega (arith, length-append s (capital c ∷ []))) h.1
            (omega (arith, length-append s (capital c ∷ [])))
        ∙ ap some (append_assoc s (capital c ∷ []) (map capital bytes)))

-- The loop over all of an ASCII text shorter than 2^31 bytes stays inside it and makes each letter a capital.
pub upper_loop-map :
    (bytes : Bytes)
    → IsAscii bytes
    → length bytes < 2 ^ 31
    → upper_loop (length bytes) 0 bytes ≡ some (map capital bytes)
upper_loop-map bytes h small = upper_loop-from [] bytes 0 refl h (omega arith)
