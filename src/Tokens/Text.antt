-- ===== src/Tokens/Text.antt =====
-- material-clases/clase7/ejemplo-msq/server.c: the text that sprintf makes of a token with "%ld".
use cese_sopg_github_io.Common.{
  ℕ, zero, suc, ◌+◌, ◌-◌, ◌*◌, ◌/◌, ◌%◌, ◌^◌, ◌<◌, ◌≤◌, ◌≡◌, refl, [], ◌∷◌, ◌++◌, if◌then◌else◌,
  ltb, length, arith, length-append, dec_lt, le→ltb, lt→ltb,
}
use native.Mathlib.Numerals.{unary_clauses}
use cese_sopg_github_io.Memory.{Bytes, until_nul, until_nul-append}

-- The digits of a number below `10 ^ fuel`.
unfoldable pub digits : ℕ → ℕ → Bytes
digits zero n = []
digits (suc fuel) n =
    let rest = digits fuel (n / 10) in
    if ltb n 10 then (b'0' + n) ∷ [] else (rest ++ ((b'0' + n % 10) ∷ []))

-- Twenty digits hold every number below `2 ^ 64`.
unfoldable pub decimal : ℕ → Bytes
decimal n = digits 20 n

-- The number that a text of digits stands for, read from the left.
abbrev pub value_from : ℕ → Bytes → ℕ
value_from v [] = v
value_from v (b ∷ bs) = value_from (v * 10 + (b - b'0')) bs

value_from-append :
    (v : ℕ) (bs : Bytes) (b : ℕ) → value_from v (bs ++ (b ∷ [])) ≡ value_from v bs * 10 + (b - b'0')
value_from-append v [] b = refl
value_from-append v (c ∷ bs) b = value_from-append (v * 10 + (c - b'0')) bs b

tenth : (fuel n : ℕ) → n < 10 ^ suc fuel → n / 10 < 10 ^ fuel
tenth fuel n h = let h' : n < 10 ^ fuel * 10 = simp unary_clauses at h in omega arith

value-digits : (fuel n : ℕ) → n < 10 ^ fuel → value_from 0 (digits fuel n) ≡ n
unfolding digits
value-digits zero n h = omega arith
value-digits (suc fuel) n h = elim (dec_lt n 10) [
  | yes small ↦ rw (lt→ltb n 10 small) (omega arith)
  | no large ↦
      rw
        (
          le→ltb n 10 (omega arith),
          value_from-append 0 (digits fuel (n / 10)) (b'0' + n % 10),
          value-digits fuel (n / 10) (tenth fuel n h),
        )
        (omega arith)
]

length-digits : (fuel n : ℕ) → length (digits fuel n) ≤ fuel
unfolding digits
length-digits zero n = omega arith
length-digits (suc fuel) n = ground (
  arith,
  length-digits fuel (n / 10),
  length-append (digits fuel (n / 10)) ((b'0' + n % 10) ∷ []),
)

-- No digit is a NUL.
until_nul-digits : (fuel n : ℕ) → until_nul (digits fuel n) ≡ digits fuel n
unfolding digits
until_nul-digits zero n = refl
until_nul-digits (suc fuel) n = elim (dec_lt n 10) [
  | yes small ↦ rw (lt→ltb n 10 small) (ground arith)
  | no large ↦
      rw
        (
          le→ltb n 10 (omega arith),
          until_nul-append (digits fuel (n / 10)) ((b'0' + n % 10) ∷ [])
              (until_nul-digits fuel (n / 10)),
        )
        (ground arith)
]

pub length-decimal : (n : ℕ) → length (decimal n) ≤ 20
unfolding decimal
length-decimal n = length-digits 20 n

pub until_nul-decimal : (n : ℕ) → until_nul (decimal n) ≡ decimal n
unfolding decimal
until_nul-decimal n = until_nul-digits 20 n

-- The text of each number below 2^63 reads back as that number.
value-decimal : (n : ℕ) → n < 2 ^ 63 → value_from 0 (decimal n) ≡ n
unfolding decimal
value-decimal n h = value-digits 20 n (omega arith)
