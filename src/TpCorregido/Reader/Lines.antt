-- ===== src/TpCorregido/Reader/Lines.antt =====
-- material-clases/TP_Corregido/reader.c: the array `aux` with the text of a message and its newline.
use cese_sopg_github_io.Common.{
  ℕ, ◌+◌, ◌-◌, ◌≤◌, ◌<◌, ◌≡◌, ap, ◌∙◌, sym, append_assoc, dec_lt, none, some, [], ◌∷◌, ◌++◌, length,
  drop, arith, length-append,
}
use cese_sopg_github_io.Memory.{
  Bytes, zeros, until_nul, c_string, strlen, store, strcpy-zeros, store-end, store-zero,
  store-overflow, store-at, cons-zeros, c_string-zeros, until_nul-append,
}
use cese_sopg_github_io.TpCorregido.Reader.Buffers.{text_line, u8}

pub strlen-zeros :
    (s : Bytes) (m : ℕ) (rest : Bytes)
    → until_nul s ≡ s
    → 0 < m
    → strlen (s ++ zeros m rest) ≡ some (length s)
unfolding strlen
strlen-zeros s m rest clean h = rw (c_string-zeros s m rest h, clean)

pub line-clean : (s : Bytes) → until_nul s ≡ s → until_nul (s ++ (10 ∷ [])) ≡ s ++ (10 ∷ [])
line-clean s clean = until_nul-append s (10 ∷ []) clean

module _ (rest header msg text : Bytes) (n : ℕ) (skips : strlen header ≡ some n)
    (text_of : c_string (drop n msg) ≡ some text) (clean : until_nul text ≡ text) where
  -- After the newline is stored, and before the last store.
  abbrev with_newline : Bytes
  with_newline = (text ++ (10 ∷ [])) ++ zeros (21 - length text) rest

  text_line-store :
      length text ≤ 20 → text_line rest header msg ≡ store with_newline (length text + 2) 0
  unfolding text_line
  text_line-store h = rw (
    skips,
    strcpy-zeros 22 rest (drop n msg) text text_of (omega arith),
    strlen-zeros text (22 - length text) rest clean (omega arith),
    first_index,
    store-end text (22 - length text) rest 10 (omega arith),
    one_less,
    strlen-zeros (text ++ (10 ∷ [])) (21 - length text) rest (line-clean text clean) (omega arith),
    second_index,
  )
    where
      first_index : u8 (length text) ≡ length text
      first_index = omega arith

      one_less : 22 - length text - 1 ≡ 21 - length text
      one_less = omega arith

      second_index : u8 (length (text ++ (10 ∷ []))) + 1 ≡ length text + 2
      second_index = omega (arith, length-append text (10 ∷ []))

  -- A text of at most 19 bytes stays inside the array.
  pub text_line-fits : length text ≤ 19 → text_line rest header msg ≡ some with_newline
  text_line-fits h = rw (
    text_line-store (omega arith),
    store-zero (text ++ (10 ∷ [])) (21 - length text) (length text + 2) rest
        (omega (arith, length-append text (10 ∷ []))) (omega (arith, length-append text (10 ∷ []))),
  )

  -- With a text of 20 bytes the last store goes to the byte behind the array.
  pub text_line-last :
      length text ≡ 20 → text_line rest header msg ≡ store ((text ++ (10 ∷ [])) ++ (0 ∷ rest)) 22 0
  text_line-last h = rw (text_line-store (omega arith), ends)
    where
      ends : store with_newline (length text + 2) 0 ≡ store ((text ++ (10 ∷ [])) ++ (0 ∷ rest)) 22 0
      ends =
          let last : 21 - length text ≡ 1 = omega arith in
          let index : length text + 2 ≡ 22 = omega arith in rw (last, index)

module _ (header msg text : Bytes) (n : ℕ) (skips : strlen header ≡ some n)
    (text_of : c_string (drop n msg) ≡ some text) (clean : until_nul text ≡ text) where
  -- The store behind the array changes the first byte there.
  text_line-behind :
      (x : ℕ) (more : Bytes)
      → length text ≡ 20
      → text_line (x ∷ more) header msg ≡ some ((text ++ (10 ∷ [])) ++ (0 ∷ 0 ∷ more))
  text_line-behind x more e =
      text_line-last (x ∷ more) header msg text n skips text_of clean e
      ∙ ap (λ l. store l 22 0) (sym (append_assoc (text ++ (10 ∷ [])) (0 ∷ []) (x ∷ more)))
      ∙ store-at ((text ++ (10 ∷ [])) ++ (0 ∷ [])) more x 0 22 full
      ∙ ap some (append_assoc (text ++ (10 ∷ [])) (0 ∷ []) (0 ∷ more))
    where
      full : 22 ≡ length ((text ++ (10 ∷ [])) ++ (0 ∷ []))
      full = omega (arith, length-append (text ++ (10 ∷ [])) (0 ∷ []), length-append text (10 ∷ []))

  -- Nothing lies behind the array: the last store is outside it.
  pub text_line-overflow : length text ≡ 20 → text_line [] header msg ≡ none
  text_line-overflow e =
      text_line-last [] header msg text n skips text_of clean e
      ∙ store-overflow ((text ++ (10 ∷ [])) ++ (0 ∷ [])) 22 0
          (omega (arith, length-append (text ++ (10 ∷ [])) (0 ∷ []), length-append text (10 ∷ [])))

  text_line-twenty :
      (r : Bytes)
      → length text ≤ 19 + length r
      → length text ≡ 20
      → (pad : Bytes) × (text_line r header msg ≡ some ((text ++ (10 ∷ [])) ++ (0 ∷ pad)))
  text_line-twenty [] h e = absurd (omega arith)
  text_line-twenty (x ∷ more) h e = (0 ∷ more, text_line-behind x more e)

-- The array `aux` has room for the line: at 20 bytes the last store wants a byte behind it.
abbrev pub Room : Bytes → Bytes → Type 0
Room rest text = (length text ≤ 20) × (length text ≤ 19 + length rest)

pub text_line-Room :
    (rest header msg text : Bytes) (n : ℕ)
    → strlen header ≡ some n
    → c_string (drop n msg) ≡ some text
    → until_nul text ≡ text
    → Room rest text
    → (pad : Bytes) × (text_line rest header msg ≡ some ((text ++ (10 ∷ [])) ++ (0 ∷ pad)))
text_line-Room rest header msg text n skips text_of clean room = elim (dec_lt (length text) 20) [
  | yes fits ↦ (
    zeros (21 - length text - 1) rest,
    rw (cons-zeros (21 - length text) rest (omega arith))
        (text_line-fits rest header msg text n skips text_of clean (omega arith)),
  )
  | no long ↦ text_line-twenty header msg text n skips text_of clean rest room.1 (omega arith)
]
