-- ===== src/TpCorregido/Writer/Refine.antt =====
-- material-clases/TP_Corregido/writer.c: `main` and sigusr_handler with their arrays against Spec.
use cese_sopg_github_io.Common.{
  ℕ, zero, suc, ◌-◌, ◌≤◌, ◌≡◌, refl, ap, fun_ext, ◌∙◌, [], ◌∷◌, ◌++◌, length, take, arith,
  take-append_length, length-take,
}
use cese_sopg_github_io.Memory.{
  Bytes, codes, zeros, until_nul, strlen, c_string-terminated, cons-zeros, until_nul-until_nul,
  until_nul-append,
}
use cese_sopg_github_io.Posix.{
  Signal, sigusr1, Ret, fail, ok, Call, Prog, done, fault, ◌>>=◌, ◌>>◌, stdin_fileno, call-cong,
  exit, exit_failure,
}
use cese_sopg_github_io.Posix.Sys.{read, write, clip, perror}
use cese_sopg_github_io.TpCorregido.Protocol.{payload, length-payload, cut, data_frame, sign_frame}
use cese_sopg_github_io.TpCorregido.Spec.{on_sent, send_text}
use cese_sopg_github_io.TpCorregido.Writer.{
  on_input, on_written, on_eof, after_read, round, loop, main, setup, sigusr_handler, write_string,
  on_signal_written,
}
use cese_sopg_github_io.TpCorregido.Writer.Messages.{
  data_message_lem, sign_message-room, sign_message-overflow,
}

pub clean-sign : (sig : Signal) → until_nul (sign_frame sig) ≡ sign_frame sig
clean-sign sigusr1 = refl
clean-sign _ = refl

-- `write(fd, aux, strlen(aux))` sends the string that `aux` holds.
pub write_string-text :
    (fd : ℕ) (s r : Bytes) → until_nul s ≡ s → write_string fd (s ++ (0 ∷ r)) ≡ write fd s
unfolding strlen
write_string-text fd s r clean =
    rw (c_string-terminated s r, clean, take-append_length (length s) s (0 ∷ r) refl)

clean-frame : (bytes : Bytes) → until_nul (data_frame (payload bytes)) ≡ data_frame (payload bytes)
clean-frame bytes =
    until_nul-append (codes "DATA: ") (payload bytes) refl
    ∙ ap (λ t. codes "DATA: " ++ t) (until_nul-until_nul (cut bytes))

on_written-text :
    (s r : Bytes) (ret : Ret ℕ) → until_nul s ≡ s → on_written (s ++ (0 ∷ r)) ret ≡ on_sent s ret
on_written-text s r (fail e) clean = refl
on_written-text s r (ok n) clean = rw (c_string-terminated s r, clean)

send-text :
    (fd : ℕ) (s r : Bytes)
    → until_nul s ≡ s
    → (write_string fd (s ++ (0 ∷ r)) >>= on_written (s ++ (0 ∷ r))) ≡ (write fd s >>= on_sent s)
send-text fd s r clean =
    ap (λ (p : Prog (Ret ℕ)). p >>= on_written (s ++ (0 ∷ r))) (write_string-text fd s r clean)
    ∙ call-cong (Call.write fd s) (λ ret. on_written-text s r ret clean)

-- The Writer's loop over frames.
abbrev pub after_read_text : ℕ → Ret Bytes → Prog (Unit {0})
after_read_text fd (fail e) = perror "read(STDIN_FILENO)" >> exit exit_failure
after_read_text fd (ok []) = on_eof fd
after_read_text fd (ok (b ∷ bs)) = send_text fd (b ∷ bs)

abbrev pub round_text : ℕ → Prog (Unit {0})
round_text fd = do ret ← read stdin_fileno 20; after_read_text fd ret

unfoldable pub loop_text : ℕ → ℕ → Prog (Unit {0})
loop_text zero fd = done tt
loop_text (suc n) fd = round_text fd >> loop_text n fd

module _ (rest : Bytes) where
  pub on_input-refines :
      (fd : ℕ) (bytes : Bytes) → length bytes ≤ 20 → on_input rest fd bytes ≡ send_text fd bytes
  unfolding on_input
  on_input-refines fd bytes h =
      rw
        (
          data_message_lem rest bytes h,
          ← cons-zeros (21 - length (payload bytes)) rest (omega (arith, length-payload bytes h)),
        )
        (send-text fd (data_frame (payload bytes)) (zeros (21 - length (payload bytes) - 1) rest)
          (clean-frame bytes))

  after_read-refines :
      (fd : ℕ) (r : Ret Bytes) → after_read rest fd (clip 20 r) ≡ after_read_text fd (clip 20 r)
  after_read-refines fd (fail e) = refl
  after_read-refines fd (ok []) = refl
  after_read-refines fd (ok (b ∷ bs)) =
      on_input-refines fd (take 20 (b ∷ bs)) (omega (arith, length-take 20 (b ∷ bs)))

  pub round-refines : (fd : ℕ) → round rest fd ≡ round_text fd
  unfolding round
  round-refines fd = call-cong (Call.read 0 20) (λ r. after_read-refines fd r)

  loop-refines : (n fd : ℕ) → loop rest n fd ≡ loop_text n fd
  unfolding loop loop_text
  loop-refines zero fd = refl
  loop-refines (suc n) fd = rw (round-refines fd, loop-refines n fd)

  -- Whatever lies behind its arrays, the Writer makes, for any number of passes and whatever the
  -- kernel answers, the calls of the Writer without arrays: the set-up, then the frame of what each
  -- `read` brings. It touches no memory outside its arrays.
  pub writer_main-refines : (n : ℕ) → main rest n ≡ (setup >>= loop_text n)
  unfolding main
  writer_main-refines n =
      ap (λ (k : ℕ → Prog (Unit {0})). setup >>= k) (fun_ext (λ fd. loop-refines n fd))

-- With nothing behind its array, the handler of SIGUSR1 and SIGUSR2 writes outside `aux_handler`
-- for every signal.
pub sigusr_handler-overflow : (fd : ℕ) (sig : Signal) → sigusr_handler [] fd sig ≡ fault
unfolding sigusr_handler
sigusr_handler-overflow fd sig = rw (sign_message-overflow sig)

-- With at least one byte behind its array, the handler of SIGUSR1 and SIGUSR2 writes the frame of
-- the signal into the FIFO and looks at the result.
pub sigusr_handler-refines :
    (x : ℕ) (more : Bytes) (fd : ℕ) (sig : Signal)
    → sigusr_handler (x ∷ more) fd sig ≡ (write fd (sign_frame sig) >>= on_signal_written)
unfolding sigusr_handler
sigusr_handler-refines x more fd sig =
    rw (sign_message-room x more sig, write_string-text fd (sign_frame sig) more (clean-sign sig))
