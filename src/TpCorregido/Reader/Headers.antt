-- ===== src/TpCorregido/Reader/Headers.antt =====
-- What the Reader finds in the array `msg`: the header, and the text behind it.
use cese_sopg_github_io.Common.{
  ℕ, ◌-◌, ◌<◌, ◌≡◌, refl, ap, ◌∙◌, true, some, [], ◌∷◌, ◌++◌, length, drop, arith, append_assoc,
  drop-append_length,
}
use cese_sopg_github_io.Memory.{
  Bytes, codes, zeros, until_nul, c_string, strlen, strncmp_eq, c_string-zeros, cons-zeros,
}
use cese_sopg_github_io.TpCorregido.Protocol.{starts_with, starts_with-split}
use cese_sopg_github_io.TpCorregido.Reader.Buffers.{has_header, data_header, sign_header}

-- Against a header without NULs, `strncmp` is the test for a prefix.
strncmp_eq-starts_with :
    (h t a r : Bytes)
    → until_nul h ≡ h
    → strncmp_eq (a ++ (0 ∷ r)) (h ++ t) (length h) ≡ some (starts_with h a)
unfolding strncmp_eq
strncmp_eq-starts_with [] t a r clean = refl
strncmp_eq-starts_with (x ∷ h) t [] r clean = ground arith
strncmp_eq-starts_with (x ∷ h) t (b ∷ a) r clean = ground (arith, strncmp_eq-starts_with h t a r)

pub has_header-data :
    (bytes : Bytes) (m : ℕ) (rest : Bytes)
    → 0 < m
    → has_header (bytes ++ zeros m rest) data_header ≡ some (starts_with (codes "DATA: ") bytes)
unfolding has_header strlen c_string
has_header-data bytes m rest pos =
    rw (← cons-zeros m rest pos)
      (strncmp_eq-starts_with (codes "DATA: ") (0 ∷ []) bytes (zeros (m - 1) rest) refl)

pub has_header-sign :
    (bytes : Bytes) (m : ℕ) (rest : Bytes)
    → 0 < m
    → has_header (bytes ++ zeros m rest) sign_header ≡ some (starts_with (codes "SIGN: ") bytes)
unfolding has_header strlen c_string
has_header-sign bytes m rest pos =
    rw (← cons-zeros m rest pos)
      (strncmp_eq-starts_with (codes "SIGN: ") (0 ∷ []) bytes (zeros (m - 1) rest) refl)

pub text_behind :
    (h bytes : Bytes) (m : ℕ) (rest : Bytes)
    → 0 < m
    → starts_with h bytes ≡ true
    → c_string (drop (length h) (bytes ++ zeros m rest)) ≡ some (until_nul (drop (length h) bytes))
text_behind h bytes m rest pos e =
    ap c_string skipped ∙ c_string-zeros (drop (length h) bytes) m rest pos
  where
    split : bytes ++ zeros m rest ≡ h ++ (drop (length h) bytes ++ zeros m rest)
    split =
        ap (λ l. l ++ zeros m rest) (starts_with-split h bytes e)
        ∙ append_assoc h (drop (length h) bytes) (zeros m rest)

    skipped : drop (length h) (bytes ++ zeros m rest) ≡ drop (length h) bytes ++ zeros m rest
    skipped =
        ap (drop (length h)) split
        ∙ drop-append_length (length h) h (drop (length h) bytes ++ zeros m rest) refl
