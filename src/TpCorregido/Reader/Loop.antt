-- ===== src/TpCorregido/Reader/Loop.antt =====
-- material-clases/TP_Corregido/reader.c: the loop and `main` against those of Spec.
use cese_sopg_github_io.Common.{
  ℕ, zero, suc, ◌≤◌, ◌≡◌, refl, ap, fun_ext, [], ◌∷◌, length, take, arith, length-take,
}
use cese_sopg_github_io.Memory.{Bytes}
use cese_sopg_github_io.Posix.{
  Ret, fail, ok, Call, Prog, done, ◌>>=◌, ◌>>◌, exit, exit_failure, call-cong,
}
use cese_sopg_github_io.Posix.Sys.{read, clip, perror}
use cese_sopg_github_io.TpCorregido.Protocol.{length-routed_text}
use cese_sopg_github_io.TpCorregido.Spec.{deliver}
use cese_sopg_github_io.TpCorregido.Reader.{Files, on_eof, after_read, round, loop, main, setup}
use cese_sopg_github_io.TpCorregido.Reader.Refine.{on_message-refines}

-- The Reader's loop over messages.
abbrev pub after_read_message : Files → Ret Bytes → Prog (Unit {0})
after_read_message f (fail e) = perror "read(fifo_fd)" >> exit exit_failure
after_read_message f (ok []) = on_eof f.fifo_fd
after_read_message f (ok (b ∷ bs)) = deliver f.log_fd f.sign_fd (b ∷ bs)

abbrev pub round_message : Files → Prog (Unit {0})
round_message f = do ret ← read f.fifo_fd 26; after_read_message f ret

unfoldable pub loop_message : ℕ → Files → Prog (Unit {0})
loop_message zero f = done tt
loop_message (suc n) f = round_message f >> loop_message n f

module _ (x : ℕ) (more : Bytes) where
  after_read-refines :
      (f : Files) (r : Ret Bytes)
      → after_read (x ∷ more) f (clip 26 r) ≡ after_read_message f (clip 26 r)
  after_read-refines f (fail e) = refl
  after_read-refines f (ok []) = refl
  after_read-refines f (ok (b ∷ bs)) =
      on_message-refines (x ∷ more) f (take 26 (b ∷ bs)) clipped
        (omega (arith, length-routed_text (take 26 (b ∷ bs)) clipped))
    where
      clipped : length (take 26 (b ∷ bs)) ≤ 26
      clipped = omega (arith, length-take 26 (b ∷ bs))

  pub round-refines : (f : Files) → round (x ∷ more) f ≡ round_message f
  unfolding round
  round-refines f = call-cong (Call.read f.fifo_fd 26) (λ r. after_read-refines f r)

  loop-refines : (n : ℕ) (f : Files) → loop (x ∷ more) n f ≡ loop_message n f
  unfolding loop loop_message
  loop-refines zero f = refl
  loop-refines (suc n) f = rw (round-refines f, loop-refines n f)

  -- With at least one byte behind its arrays, the Reader makes, for any number of passes and
  -- whatever the kernel answers, the calls of the Reader without arrays: the set-up, then the
  -- delivery of what each `read` brings as one message.
  pub reader_main-refines : (n : ℕ) → main (x ∷ more) n ≡ (setup >>= loop_message n)
  unfolding main
  reader_main-refines n =
      ap (λ (k : Files → Prog (Unit {0})). setup >>= k) (fun_ext (λ f. loop-refines n f))
