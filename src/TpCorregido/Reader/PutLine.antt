-- ===== src/TpCorregido/Reader/PutLine.antt =====
-- What the Reader does with the array `aux` once it holds its line.
use cese_sopg_github_io.Common.{
  ℕ, suc, ◌+◌, ◌-◌, ◌≤◌, ◌≡◌, refl, ap, ◌∙◌, false, String, some, ◌==◌, [], ◌∷◌, ◌++◌, length,
  arith, length-append,
}
use cese_sopg_github_io.Memory.{Bytes, zeros, until_nul, c_string-zeros, store-last}
use cese_sopg_github_io.Posix.{Ret, fail, ok, Call, Prog, ◌>>=◌, call-cong}
use cese_sopg_github_io.TpCorregido.Spec.{on_put, put_line}
use cese_sopg_github_io.TpCorregido.Writer.{write_string}
use cese_sopg_github_io.TpCorregido.Writer.Refine.{write_string-text}
use cese_sopg_github_io.TpCorregido.Reader.{on_written}
use cese_sopg_github_io.TpCorregido.Reader.Buffers.{without_newline, u8}
use cese_sopg_github_io.TpCorregido.Reader.Lines.{strlen-zeros, line-clean}

module _ (text pad : Bytes) (clean : until_nul text ≡ text) (short : length text ≤ 20) where
  -- The array `aux` with its line.
  abbrev line : Bytes
  line = (text ++ (10 ∷ [])) ++ (0 ∷ pad)

  without_newline-line : without_newline line ≡ some (text ++ zeros 2 pad)
  unfolding without_newline
  without_newline-line = rw (
    strlen-zeros (text ++ (10 ∷ [])) 1 pad (line-clean text clean) (omega arith),
    length-append text (10 ∷ []),
    index,
    not_zero,
    before,
    store-last text 1 pad 10,
  )
    where
      index : u8 (length text + 1) ≡ suc (length text)
      index = omega arith

      not_zero : (suc (length text) == 0) ≡ false
      not_zero = ground arith

      before : suc (length text) - 1 ≡ length text
      before = omega arith

  on_written-line :
      (error report : String) (ret : Ret ℕ)
      → on_written error report line ret ≡ on_put error report text ret
  on_written-line error report (fail e) = refl
  on_written-line error report (ok n) =
      rw (without_newline-line, c_string-zeros text 2 pad (omega arith), clean)

  pub put-line :
      (fd : ℕ) (error report : String)
      → (write_string fd line >>= on_written error report line) ≡ put_line fd error report text
  put-line fd error report =
      ap (λ (p : Prog (Ret ℕ)). p >>= on_written error report line)
        (write_string-text fd (text ++ (10 ∷ [])) pad (line-clean text clean))
      ∙ call-cong (Call.write fd (text ++ (10 ∷ []))) (λ ret. on_written-line error report ret)
