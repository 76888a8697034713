-- ===== src/Memory/Strings.antt =====
-- A text written with its NUL at the beginning of an array.
use cese_sopg_github_io.Common.{
  ◌+◌, ◌<◌, ◌≡◌, refl, ap, ◌∙◌, some, [], ◌∷◌, ◌++◌, append_assoc, length, take, drop, arith,
  take-append_length,
}
use mathlib.Core.Option
pub use cese_sopg_github_io.Memory.Laws.{length-nul}
use cese_sopg_github_io.Memory.Defs.{Bytes, c_string, strlen, copy_at}
use cese_sopg_github_io.Memory.Laws.{until_nul, c_string-terminated, copy_at-start, length-start}

-- A C string in memory.
abbrev pub nul : Bytes → Bytes
nul s = s ++ (0 ∷ [])

abbrev pub written : Bytes → Bytes → Bytes
written buffer text = nul text ++ drop (length (nul text)) buffer

pub copy_at-written :
    (buffer text : Bytes)
    → length text < length buffer
    → copy_at buffer 0 (nul text) ≡ some (written buffer text)
copy_at-written buffer text h = copy_at-start buffer (nul text) (omega (arith, length-nul text))

pub length-written :
    (buffer text : Bytes)
    → length text < length buffer
    → length (written buffer text) ≡ length buffer
length-written buffer text h = length-start buffer (nul text) (omega (arith, length-nul text))

pub c_string-written :
    (buffer text : Bytes) → until_nul text ≡ text → c_string (written buffer text) ≡ some text
c_string-written buffer text clean =
    ap c_string (append_assoc text (0 ∷ []) (drop (length (nul text)) buffer))
    ∙ c_string-terminated text (drop (length (nul text)) buffer)
    ∙ ap some clean

pub strlen-written :
    (buffer text : Bytes)
    → until_nul text ≡ text
    → strlen (written buffer text) ≡ some (length text)
unfolding strlen
strlen-written buffer text clean = ap (Option.map length) (c_string-written buffer text clean)

pub take-written : (buffer text : Bytes) → take (length text + 1) (written buffer text) ≡ nul text
take-written buffer text =
    take-append_length (length text + 1) (nul text) (drop (length (nul text)) buffer)
      (omega (arith, length-nul text))

-- `take` by the length of the text gives the text without its NUL.
pub take-text : (buffer text : Bytes) → take (length text) (written buffer text) ≡ text
take-text buffer text =
    ap (take (length text)) (append_assoc text (0 ∷ []) (drop (length (nul text)) buffer))
    ∙ take-append_length (length text) text ((0 ∷ []) ++ drop (length (nul text)) buffer) refl
