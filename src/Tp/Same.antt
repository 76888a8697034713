-- ===== src/Tp/Same.antt =====
-- material-clases/TP against material-clases/TP_Corregido: the calls of the two versions.
use cese_sopg_github_io.Common.{ℕ, zero, suc, ◌≡◌, refl, ap, ap₂, fun_ext}
use cese_sopg_github_io.Memory.{Bytes}
use cese_sopg_github_io.Posix.{Prog, ◌>>=◌, ◌>>◌}
use cese_sopg_github_io.TpCorregido.Writer
use cese_sopg_github_io.TpCorregido.Reader
use cese_sopg_github_io.Tp.Writer as FirstWriter
use cese_sopg_github_io.Tp.Reader as FirstReader

writer_setup : FirstWriter.setup ≡ Writer.setup
unfolding FirstWriter.setup Writer.setup
writer_setup = refl

reader_setup : FirstReader.setup ≡ Reader.setup
unfolding FirstReader.setup Reader.setup
reader_setup = refl

module _ (rest : Bytes) where
  writer_loop : (n fd : ℕ) → FirstWriter.loop rest n fd ≡ Writer.loop rest n fd
  unfolding FirstWriter.loop Writer.loop FirstWriter.round Writer.round FirstWriter.on_input
      Writer.on_input
  writer_loop zero fd = refl
  writer_loop (suc n) fd =
      ap (λ (p : Prog (Unit {0})). Writer.round rest fd >> p) (writer_loop n fd)

  reader_loop : (n : ℕ) (f : Reader.Files) → FirstReader.loop rest n f ≡ Reader.loop rest n f
  unfolding FirstReader.loop Reader.loop FirstReader.round Reader.round FirstReader.on_message
      Reader.on_message FirstReader.check_and_write_msg Reader.check_and_write_msg
      FirstReader.write_text Reader.write_text
  reader_loop zero f = refl
  reader_loop (suc n) f = ap (λ (p : Prog (Unit {0})). Reader.round rest f >> p) (reader_loop n f)

  -- For any number of passes, the Writer that installs its handlers in `main` makes the calls of the one that
  -- installs each by `setup_signal`.
  pub writer_same : (n : ℕ) → FirstWriter.main rest n ≡ Writer.main rest n
  unfolding FirstWriter.main Writer.main
  writer_same n =
      ap₂ (λ (p : Prog ℕ) (k : ℕ → Prog (Unit {0})). p >>= k) writer_setup
        (fun_ext (λ fd. writer_loop n fd))

  -- For any number of passes, the Reader that installs its handler in `main` makes the calls of the one that
  -- installs it by `setup_signal`.
  pub reader_same : (n : ℕ) → FirstReader.main rest n ≡ Reader.main rest n
  unfolding FirstReader.main Reader.main
  reader_same n =
      ap₂ (λ (p : Prog Reader.Files) (k : Reader.Files → Prog (Unit {0})). p >>= k) reader_setup
        (fun_ext (λ f. reader_loop n f))
