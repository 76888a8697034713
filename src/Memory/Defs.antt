-- ===== src/Memory/Defs.antt =====
-- The operations on char arrays.
use cese_sopg_github_io.Common.{
  ℕ, zero, suc, ◌+◌, Bool, true, false, Option, none, some, List, [], ◌∷◌, ◌++◌, if◌then◌else◌, ltb,
  leb, ◌==◌, length, set, take, drop, replicate, String, ◌≡◌, refl,
}
use Prim.Native.Char.{code}
use mathlib.Core.Option

abbrev pub Bytes : Type 0
Bytes = List ℕ

-- The bytes of a string literal, without its NUL.
abbrev pub codes : String → Bytes
codes String.[] = []
codes (String.◌∷◌ c s) = code c ∷ codes s

infixl 5 ◌>>=◌
abbrev pub ◌>>=◌ {ℓ κ} : {A : Type ℓ} {B : Type κ} → Option A → (A → Option B) → Option B
none >>= f = none
some a >>= f = f a

-- `bzero` of an array of `n` bytes
abbrev pub bzero : ℕ → Bytes
bzero n = replicate n 0

-- The C string that an array begins with; `none` if no NUL ends it inside the array.
unfoldable pub c_string : Bytes → Option Bytes
c_string [] = none
c_string (b ∷ bs) = if b == 0 then some [] else Option.map (λ s. b ∷ s) (c_string bs)

unfoldable pub strlen : Bytes → Option ℕ
strlen buf = Option.map length (c_string buf)

-- `buf[i] = b`
unfoldable pub store : Bytes → ℕ → ℕ → Option Bytes
store buf i b = if ltb i (length buf) then some (set buf i b) else none

-- Copy `src` into the array from index `i` on, as `read`, `strcpy` and `strcat` do.
unfoldable pub copy_at : Bytes → ℕ → Bytes → Option Bytes
copy_at buf i src =
    if leb (i + length src) (length buf)
    then some (take i buf ++ (src ++ drop (i + length src) buf))
    else none

unfoldable pub strcpy : Bytes → Bytes → Option Bytes
strcpy dst src = do s ← c_string src; copy_at dst 0 (s ++ (0 ∷ []))

unfoldable pub strcat : Bytes → Bytes → Option Bytes
strcat dst src = do d ← c_string dst; s ← c_string src; copy_at dst (length d) (s ++ (0 ∷ []))

-- Whether `strncmp a b n` is 0.
unfoldable pub strncmp_eq : Bytes → Bytes → ℕ → Option Bool
strncmp_eq a b zero = some true
strncmp_eq [] b (suc n) = none
strncmp_eq (x ∷ xs) [] (suc n) = none
strncmp_eq (x ∷ xs) (y ∷ ys) (suc n) =
    if x == y then (if x == 0 then some true else strncmp_eq xs ys n) else some false

strcat_runs :
    strcat (codes "ab" ++ (0 ∷ 7 ∷ 7 ∷ [])) (codes "cd" ++ (0 ∷ []))
    ≡ some (codes "abcd" ++ (0 ∷ []))
unfolding strcat c_string copy_at
strcat_runs = refl
