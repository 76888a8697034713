-- ===== src/NamedFifo/Typed.antt =====
-- material-clases/clase4/ejemplo-named-fifo: what is typed into the Writer is what the Reader shows.
use cese_sopg_github_io.Common.{
  ℕ, zero, suc, ◌≤◌, ◌≡◌, String, List, [], ◌∷◌, ◌++◌, map, length, take, drop,
}
use mathlib.Core.Option
use cese_sopg_github_io.Memory.{Bytes, until_nul}
use cese_sopg_github_io.Posix.{Arg, num, str, Outcome, run}
use cese_sopg_github_io.Posix.Terminal.{Shown}
use cese_sopg_github_io.NamedFifo.Writer
use cese_sopg_github_io.NamedFifo.Reader
use cese_sopg_github_io.NamedFifo.Kernel.{World, fifo_os}

abbrev pub line : String → List Arg → Shown
line format args = record { format = format; args = args }

abbrev pub world : List Bytes → Bytes → List Shown → World
world typed fifo screen = record { typed = typed; fifo = fifo; screen = screen }

abbrev pub concat : List Bytes → Bytes
concat [] = []
concat (l ∷ ls) = l ++ concat ls

-- Lines that one `fgets` takes, without a NUL.
abbrev pub ShortLines : List Bytes → Type 0
ShortLines [] = Unit
ShortLines (l ∷ ls) = ((length l ≤ 299) × (until_nul l ≡ l)) × ShortLines ls

abbrev wrote : Bytes → Shown
wrote l = line "writer: wrote %d bytes\n" (num (length l) ∷ [])

abbrev pub came : Bytes → Shown
came t = line "reader: read %d bytes: \"%s\"\n" (num (length t) ∷ str t ∷ [])

-- The bytes as `read` brings them, by the number of reads.
abbrev pieces : ℕ → Bytes → List Bytes
pieces zero bs = []
pieces (suc n) [] = []
pieces (suc n) (b ∷ bs) = take 299 (b ∷ bs) ∷ pieces n (drop 299 (b ∷ bs))

abbrev pub writer_run : List Bytes → Bytes → Outcome (Unit {0}) × World
writer_run ls s = run fifo_os (Writer.main (suc (length ls)) s) (world ls [] [])

abbrev pub reader_run : Bytes → Bytes → Outcome (Unit {0}) × World
reader_run fifo s = run fifo_os (Reader.main (suc (length fifo)) s) (world [] fifo [])

-- What the Reader has shown of the texts that it has read.
abbrev pub shown : List Bytes → List Shown
shown texts = line "waiting for writers...\n" [] ∷ line "got a writer\n" [] ∷ map came texts
