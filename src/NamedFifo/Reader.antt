-- ===== src/NamedFifo/Reader.antt =====
-- material-clases/clase4/ejemplo-named-fifo/reader.c. The result of `open` is not looked at.
use cese_sopg_github_io.Common.{ℕ, zero, suc, ◌-◌, [], ◌∷◌, length}
use cese_sopg_github_io.Memory.{Bytes, c_string}
use cese_sopg_github_io.Posix.{
  num, str, Ret, fail, ok, Prog, done, exit, lift, ◌>>=◌, ◌>>◌, fifo_node, rdonly, exit_success,
}
use cese_sopg_github_io.Posix.Sys.{mknod, open_file, read, printf, perror, fd_of}
use cese_sopg_github_io.Tcp.Buffer.{ended_at}
use cese_sopg_github_io.NamedFifo.Writer.{fifo_name}

-- The result is the descriptor.
unfoldable pub setup : Prog ℕ
setup = do
  _ ← mknod fifo_name fifo_node
  printf "waiting for writers...\n" []
  opened ← open_file fifo_name rdonly
  printf "got a writer\n" []
  done (fd_of opened)

-- `while (num > 0)`; behind the loop the program returns 0.
abbrev pub unless_end : ℕ → Bytes → Prog Bytes
unless_end zero s = exit exit_success
unless_end (suc n) s = done s

-- The result is the array behind the pass.
abbrev pub on_read : Bytes → Ret Bytes → Prog Bytes
on_read s (fail e) = perror "read" >> exit exit_success
on_read s (ok bytes) = do
  s' ← lift (ended_at s bytes)
  text ← lift (c_string s')
  printf "reader: read %d bytes: \"%s\"\n" (num (length bytes) ∷ str text ∷ [])
  unless_end (length bytes) s'

-- The first `n` passes of the loop.
unfoldable pub loop : ℕ → ℕ → Bytes → Prog (Unit {0})
loop zero fd s = done tt
loop (suc n) fd s = do ret ← read fd (300 - 1); s' ← on_read s ret; loop n fd s'

-- `main`, by its array, which is not initialised.
unfoldable pub main : ℕ → Bytes → Prog (Unit {0})
main n s = setup >>= λ fd. loop n fd s
