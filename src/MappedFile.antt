-- ===== src/MappedFile.antt =====
-- material-clases/clase7/ejemplo-mmap-file/mmap.c: the letters of a file, which is mapped, made capitals. What
-- the program stores into the mapping is what `msync` gets.
pub mod Loop
pub mod Upper
mod Tests
use cese_sopg_github_io.Common.{
  ℕ, zero, suc, ◌+◌, ◌-◌, Option, none, some, List, [], ◌∷◌, ◌++◌, if◌then◌else◌, ltb, leb, ◌==◌,
  ◌&&◌, get_elem?, String,
}
use cese_sopg_github_io.Memory.{Bytes, codes}
use cese_sopg_github_io.Posix.{Call, Ret, fail, ok, Prog, exit, call, lift, ◌>>=◌, ◌>>◌, rdwr}
use cese_sopg_github_io.Posix.Sys.{open_path, fstat, mmap, msync, munmap, close, perror}
use cese_sopg_github_io.MappedFile.Loop.{upper_loop}

abbrev pub die : String → ℕ → Prog (Unit {0})
die msg status = perror msg >> exit status

abbrev pub on_unmapped : ℕ → Ret ℕ → Prog (Unit {0})
on_unmapped fd (fail e) = die "munmap" 6
on_unmapped fd (ok r) = do _ ← close fd; exit 0

abbrev pub on_synced : ℕ → Bytes → Ret ℕ → Prog (Unit {0})
on_synced fd bytes (fail e) = die "msync" 5
on_synced fd bytes (ok r) = do unmapped ← munmap bytes; on_unmapped fd unmapped

abbrev pub on_mapped : ℕ → ℕ → Ret Bytes → Prog (Unit {0})
on_mapped fd size (fail e) = die "mmap" 4
on_mapped fd size (ok bytes) = do
  bytes' ← lift (upper_loop size 0 bytes)
  synced ← msync bytes'
  on_synced fd bytes' synced

abbrev pub on_size : ℕ → Ret ℕ → Prog (Unit {0})
on_size fd (fail e) = die "fstat" 3
on_size fd (ok size) = do mapped ← mmap fd size; on_mapped fd size mapped

abbrev pub on_opened : Ret ℕ → Prog (Unit {0})
on_opened (fail e) = die "open" 2
on_opened (ok fd) = do size ← fstat fd; on_size fd size

abbrev pub usage : Bytes → Prog (Unit {0})
usage name = call (Call.write 2 (codes "Usage: " ++ name ++ codes " <filename>\n")) (λ r. exit 1)

-- `main`, by its arguments; the first is the program's name.
unfoldable pub main : List Bytes → Prog (Unit {0})
main [] = usage []
main (name ∷ []) = usage name
main (name ∷ path ∷ argv) = do opened ← open_path path rdwr; on_opened opened
