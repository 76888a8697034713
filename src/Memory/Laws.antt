-- ===== src/Memory/Laws.antt =====
-- How the string functions act on an array that holds a text and zeros behind it.
use cese_sopg_github_io.Common.{
  ℕ, zero, suc, ◌+◌, ◌-◌, ◌≤◌, ◌<◌, ◌≡◌, refl, ap, ◌∙◌, none, some, [], ◌∷◌, ◌++◌, append_assoc,
  if◌then◌else◌, ◌==◌, length, set, take, drop, arith, length-append, length-drop, length-replicate,
  take-append_length, drop-replicate, drop-append, set-append_replicate, set-append_length, lt→ltb,
  le→ltb, le→leb, lt→leb,
}
use cese_sopg_github_io.Memory.Defs.{Bytes, bzero, c_string, store, copy_at, strcpy, strcat}

-- What C reads of a text that may hold NULs: the bytes before the first one.
abbrev pub until_nul : Bytes → Bytes
until_nul [] = []
until_nul (b ∷ bs) = if b == 0 then [] else b ∷ until_nul bs

pub length-until_nul : (bs : Bytes) → length (until_nul bs) ≤ length bs
length-until_nul [] = omega arith
length-until_nul (b ∷ bs) = ground (arith, length-until_nul bs)

pub until_nul-until_nul : (bs : Bytes) → until_nul (until_nul bs) ≡ until_nul bs
until_nul-until_nul [] = refl
until_nul-until_nul (b ∷ bs) = ground (arith, until_nul-until_nul bs)

pub c_string-terminated : (bs rest : Bytes) → c_string (bs ++ (0 ∷ rest)) ≡ some (until_nul bs)
unfolding c_string
c_string-terminated [] rest = refl
c_string-terminated (b ∷ bs) rest = rw (c_string-terminated bs rest) (ground arith)

-- The array of `n` zeros, with what lies in memory behind it.
abbrev pub zeros : ℕ → Bytes → Bytes
zeros n rest = bzero n ++ rest

pub c_string-zeros :
    (d : Bytes) (m : ℕ) (rest : Bytes) → 0 < m → c_string (d ++ zeros m rest) ≡ some (until_nul d)
c_string-zeros d zero rest h = absurd (omega arith)
c_string-zeros d (suc m) rest h = c_string-terminated d (zeros m rest)

pub length-zeros :
    (d : Bytes) (m : ℕ) (rest : Bytes) → length (d ++ zeros m rest) ≡ length d + m + length rest
length-zeros d m rest = omega (
  arith,
  length-append d (zeros m rest),
  length-append (bzero m) rest,
  length-replicate {0} {A = ℕ} m 0,
)

pub length-nul : (s : Bytes) → length (s ++ (0 ∷ [])) ≡ length s + 1
length-nul s = length-append s (0 ∷ [])

pub cons-zeros : (m : ℕ) (rest : Bytes) → 0 < m → 0 ∷ zeros (m - 1) rest ≡ zeros m rest
cons-zeros zero rest h = absurd (omega arith)
cons-zeros (suc m) rest h = let e : suc m - 1 ≡ m = omega arith in ap (λ k. 0 ∷ zeros k rest) e

-- A text written over zeros, from the end of another text on.
pub copy_at-zeros :
    (d src : Bytes) (m : ℕ) (rest : Bytes)
    → length src ≤ m
    → copy_at (d ++ zeros m rest) (length d) src ≡ some (d ++ (src ++ zeros (m - length src) rest))
unfolding copy_at
copy_at-zeros d src m rest h = rw (
  le→leb (length d + length src) (length (d ++ zeros m rest))
      (omega (arith, length-zeros d m rest)),
  take-append_length (length d) d (zeros m rest) refl,
  drop-append (length src) d (zeros m rest),
  drop-replicate {A = ℕ} (length src) m 0 rest h,
)

pub copy_at-overflow :
    (buf : Bytes) (i : ℕ) (src : Bytes) → length buf < i + length src → copy_at buf i src ≡ none
unfolding copy_at
copy_at-overflow buf i src h = rw (lt→leb (i + length src) (length buf) h)

-- The NUL that ends a copied text joins the zeros behind it.
pub nul-zeros :
    (s : Bytes) (m : ℕ) (rest : Bytes)
    → length s < m
    → (s ++ (0 ∷ [])) ++ zeros (m - length (s ++ (0 ∷ []))) rest ≡ s ++ zeros (m - length s) rest
nul-zeros s m rest h =
    append_assoc s (0 ∷ []) (zeros (m - length (s ++ (0 ∷ []))) rest)
    ∙ ap (λ l. s ++ l)
        (ap (λ k. 0 ∷ zeros k rest) left ∙ cons-zeros (m - length s) rest (omega arith))
  where
    left : m - length (s ++ (0 ∷ [])) ≡ m - length s - 1
    left = omega (arith, length-nul s)

pub strcat-zeros :
    (d : Bytes) (m : ℕ) (rest src s : Bytes)
    → until_nul d ≡ d
    → c_string src ≡ some s
    → length s < m
    → strcat (d ++ zeros m rest) src ≡ some ((d ++ s) ++ zeros (m - length s) rest)
unfolding strcat
strcat-zeros d m rest src s clean e h = rw (
  c_string-zeros d m rest (omega arith),
  clean,
  e,
  copy_at-zeros d (s ++ (0 ∷ [])) m rest (omega (arith, length-nul s)),
  nul-zeros s m rest h,
  append_assoc d s (zeros (m - length s) rest),
)

pub strcpy-zeros :
    (m : ℕ) (rest src s : Bytes)
    → c_string src ≡ some s
    → length s < m
    → strcpy (zeros m rest) src ≡ some (s ++ zeros (m - length s) rest)
unfolding strcpy
strcpy-zeros m rest src s e h =
    rw (
      e,
      copy_at-zeros [] (s ++ (0 ∷ [])) m rest (omega (arith, length-nul s)),
      nul-zeros s m rest h,
    )

-- A byte stored just behind a text, over a zero.
pub store-end :
    (s : Bytes) (m : ℕ) (rest : Bytes) (b : ℕ)
    → 0 < m
    → store (s ++ zeros m rest) (length s) b ≡ some ((s ++ (b ∷ [])) ++ zeros (m - 1) rest)
unfolding store
store-end s m rest b h = rw (
  lt→ltb (length s) (length (s ++ zeros m rest)) (omega (arith, length-zeros s m rest)),
  ← cons-zeros m rest h,
  set-append_length (length s) s 0 b (zeros (m - 1) rest) refl,
  append_assoc s (b ∷ []) (zeros (m - 1) rest),
)

-- A zero stored among the zeros changes nothing.
pub store-zero :
    (s : Bytes) (m i : ℕ) (rest : Bytes)
    → length s ≤ i
    → i < length s + m
    → store (s ++ zeros m rest) i 0 ≡ some (s ++ zeros m rest)
unfolding store
store-zero s m i rest h k = rw (
  lt→ltb i (length (s ++ zeros m rest)) (omega (arith, length-zeros s m rest)),
  set-append_replicate s m i 0 rest h k,
)

-- The last byte of a text overwritten by a zero.
pub store-last :
    (s : Bytes) (m : ℕ) (rest : Bytes) (b : ℕ)
    → store ((s ++ (b ∷ [])) ++ zeros m rest) (length s) 0 ≡ some (s ++ zeros (m + 1) rest)
unfolding store
store-last s m rest b = rw (
  lt→ltb (length s) (length ((s ++ (b ∷ [])) ++ zeros m rest))
      (omega (arith, length-zeros (s ++ (b ∷ [])) m rest, length-append s (b ∷ []))),
  append_assoc s (b ∷ []) (zeros m rest),
  set-append_length (length s) s b 0 (zeros m rest) refl,
  one_more,
)
  where
    one_more : 0 ∷ zeros m rest ≡ zeros (m + 1) rest
    one_more = let e : suc m ≡ m + 1 = omega arith in ap (λ k. zeros k rest) e

pub store-overflow : (buf : Bytes) (i b : ℕ) → length buf ≤ i → store buf i b ≡ none
unfolding store
store-overflow buf i b h = rw (le→ltb i (length buf) h)

pub until_nul-append : (s t : Bytes) → until_nul s ≡ s → until_nul (s ++ t) ≡ s ++ until_nul t
until_nul-append [] t h = refl
until_nul-append (b ∷ s) t h = ground (arith, until_nul-append s t, length-until_nul s)

-- A NUL stored into an array ends its string there, or leaves an earlier end.
pub c_string-set :
    (buf : Bytes) (i : ℕ) → i < length buf → c_string (set buf i 0) ≡ some (until_nul (take i buf))
unfolding c_string
c_string-set [] i h = absurd (omega arith)
c_string-set (b ∷ buf) zero h = refl
c_string-set (b ∷ buf) (suc i) h = rw (c_string-set buf i (omega arith)) (ground arith)

pub c_string-store :
    (buf : Bytes) (i : ℕ)
    → i < length buf
    → (buf' : Bytes) × (store buf i 0 ≡ some buf') × (c_string buf' ≡ some (until_nul (take i buf)))
unfolding store
c_string-store buf i h = (set buf i 0, rw (lt→ltb i (length buf) h), c_string-set buf i h)

pub store-at :
    (s more : Bytes) (x v n : ℕ)
    → n ≡ length s
    → store (s ++ (x ∷ more)) n v ≡ some (s ++ (v ∷ more))
unfolding store
store-at s more x v n e = rw (
  lt→ltb n (length (s ++ (x ∷ more))) (omega (arith, length-append s (x ∷ more))),
  set-append_length n s x v more e,
)

pub clean-take : (n : ℕ) (l : Bytes) → until_nul l ≡ l → until_nul (take n l) ≡ take n l
clean-take zero l h = refl
clean-take (suc n) [] h = refl
clean-take (suc n) (b ∷ l) h = ground (arith, clean-take n l)

pub clean-drop : (n : ℕ) (l : Bytes) → until_nul l ≡ l → until_nul (drop n l) ≡ drop n l
clean-drop zero l h = h
clean-drop (suc n) [] h = refl
clean-drop (suc n) (b ∷ l) h = ground (arith, clean-drop n l)

-- What `read` brings to the beginning of an array.
pub copy_at-start :
    (buffer bytes : Bytes)
    → length bytes ≤ length buffer
    → copy_at buffer 0 bytes ≡ some (bytes ++ drop (length bytes) buffer)
unfolding copy_at
copy_at-start buffer bytes h = rw (le→leb (0 + length bytes) (length buffer) (omega arith)) (
    let e : 0 + length bytes ≡ length bytes = omega arith in
    ap (λ k. some (bytes ++ drop k buffer)) e)

pub length-start :
    (buffer bytes : Bytes)
    → length bytes ≤ length buffer
    → length (bytes ++ drop (length bytes) buffer) ≡ length buffer
length-start buffer bytes h =
    omega
      (arith, length-append bytes (drop (length bytes) buffer), length-drop (length bytes) buffer)
