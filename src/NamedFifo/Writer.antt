-- ===== src/NamedFifo/Writer.antt =====
-- material-clases/clase4/ejemplo-named-fifo/writer.c. The result of `open` is not looked at.
use cese_sopg_github_io.Common.{
  ℕ, zero, suc, Bool, if◌then◌else◌, Option, none, some, String, [], ◌∷◌, ◌++◌, take,
}
use cese_sopg_github_io.Memory.{Bytes, strlen, copy_at}
use cese_sopg_github_io.Posix.{
  num, Ret, fail, ok, Prog, done, exit, lift, ◌>>=◌, ◌>>◌, fifo_node, wronly, exit_success,
}
use cese_sopg_github_io.Posix.Sys.{mknod, open_file, fgets, feof, write, printf, perror, fd_of}

abbrev pub fifo_name : String
fifo_name = "myfifo"

-- The result is the descriptor.
unfoldable pub setup : Prog ℕ
setup = do
  _ ← mknod fifo_name fifo_node
  printf "waiting for readers...\n" []
  opened ← open_file fifo_name wronly
  printf "got a reader--type some stuff\n" []
  done (fd_of opened)

-- The test of `feof`; `break` leads to `return 0`.
abbrev pub on_no_line : Bool → Prog Bytes
on_no_line eof = if eof then exit exit_success else (printf "error en fgets\n" [] >> exit 1)

abbrev pub on_written : Bytes → Ret ℕ → Prog Bytes
on_written s (fail e) = perror "write" >> done s
on_written s (ok n) = printf "writer: wrote %d bytes\n" (num n ∷ []) >> done s

-- The result is the array behind the pass.
abbrev pub on_line : ℕ → Bytes → Option Bytes → Prog Bytes
on_line fd s none = feof >>= on_no_line
on_line fd s (some line) = do
  s' ← lift (copy_at s 0 (line ++ (0 ∷ [])))
  n ← lift (strlen s')
  ret ← write fd (take n s')
  on_written s' ret

-- The first `n` passes of `while (1)`.
unfoldable pub loop : ℕ → ℕ → Bytes → Prog (Unit {0})
loop zero fd s = done tt
loop (suc n) fd s = do line ← fgets 300; s' ← on_line fd s line; loop n fd s'

-- `main`, by its array, which is not initialised.
unfoldable pub main : ℕ → Bytes → Prog (Unit {0})
main n s = setup >>= λ fd. loop n fd s
