-- ===== src/MappedFile/Upper.antt =====
-- material-clases/clase7/ejemplo-mmap-file/mmap.c: the loop as one map over the file, and the whole program.
use cese_sopg_github_io.Common.{ℕ, ◌==◌, if◌then◌else◌, take, [], ◌∷◌, map, length}
use cese_sopg_github_io.Memory.{Bytes}
use cese_sopg_github_io.Posix.{Call, Reply, Ret, fail, ok, unsupported, rdwr, Outcome, exited}
use cese_sopg_github_io.Posix.Sys.{msync}
use cese_sopg_github_io.MappedFile.Loop.{capital}

abbrev pub einval : ℕ
einval = 22

abbrev ebadf : ℕ
ebadf = 9

-- The descriptor of the file is 3.
abbrev by_fd : {A : Type 0} → ℕ → Ret A → Ret A
by_fd fd answer = if fd == 3 then answer else fail ebadf

-- A mapping of no bytes is refused.
abbrev mapped_of : Bytes → Ret Bytes
mapped_of [] = fail einval
mapped_of (c ∷ bytes) = ok (c ∷ bytes)

-- A kernel with one file, whose content the state is.
abbrev pub file_os : (c : Call) → Bytes → Reply c × Bytes
file_os (Call.open_path path rdwr) f = (ok 3, f)
file_os (Call.fstat fd) f = (by_fd fd (ok (length f)), f)
file_os (Call.mmap fd size) f = (by_fd fd (mapped_of (take size f)), f)
file_os (Call.msync bytes) f = (ok 0, bytes)
file_os (Call.munmap bytes) f = (ok 0, bytes)
file_os (Call.close fd) f = (by_fd fd (ok 0), f)
file_os (Call.perror msg) f = (tt, f)
file_os c f = (unsupported c, f)

-- How the program ends, by the content of the file.
abbrev pub ends : Bytes → Outcome (Unit {0}) × Bytes
ends [] = (exited 4, [])
ends (c ∷ bytes) = (exited 0, map capital (c ∷ bytes))
