-- ===== src/Pipes.antt =====
-- material-clases/clase3/ejemplo-pipes.c: a process and its child, with a pipe in each direction, behind
-- `fork`. No result of a call is looked at.
pub mod Kernels
pub mod Exchange
mod Tests
use cese_sopg_github_io.Common.{ℕ, String, [], ◌∷◌, ◌++◌}
use cese_sopg_github_io.Memory.{Bytes, codes, c_string, copy_at}
use cese_sopg_github_io.Posix.{Ret, fail, ok, Prog, done, exit, lift, ◌>>=◌, ◌>>◌, num, str}
use cese_sopg_github_io.Posix.Sys.{getpid, printf, close, sleep, read, write, wait, exit_group}

-- The descriptors of one pipe.
pub record Pipe : Type 0 where
  pub read_end : ℕ
  pub write_end : ℕ

-- "hola" and "chau", each with its NUL
abbrev pub hola : Bytes
hola = codes "hola" ++ (0 ∷ [])

abbrev pub chau : Bytes
chau = codes "chau" ++ (0 ∷ [])

-- The array behind a `read`.
abbrev pub filled : Bytes → Ret Bytes → Prog Bytes
filled buff (fail e) = done buff
filled buff (ok bytes) = lift (copy_at buff 0 bytes)

-- The array shown as a string.
abbrev pub show : String → Bytes → Prog (Unit {0})
show format buff = do text ← lift (c_string buff); printf format (str text ∷ [])

module _ (child_to_parent parent_to_child : Pipe) (buff : Bytes) where
  unfoldable pub child : Prog (Unit {0})
  child = do
    pid ← getpid
    printf "CHILD: inicio %d\n" (num pid ∷ [])
    _ ← close parent_to_child.write_end
    _ ← close child_to_parent.read_end
    _ ← sleep 2
    printf "CHILD: Escribo hola\n" []
    _ ← write child_to_parent.write_end hola
    _ ← sleep 2
    printf "CHILD: Leo\n" []
    ret ← read parent_to_child.read_end 5
    buff' ← filled buff ret
    show "CHILD: Lei %s\n" buff'
    _ ← sleep 2
    printf "\nCHILD: fin\n" []
    exit_group 0

  unfoldable pub parent : Prog (Unit {0})
  parent = do
    pid ← getpid
    printf "PARENT: inicio %d\n" (num pid ∷ [])
    _ ← close child_to_parent.write_end
    _ ← close parent_to_child.read_end
    _ ← sleep 10
    printf "PARENT: Leo\n" []
    ret ← read child_to_parent.read_end 5
    buff' ← filled buff ret
    show "PARENT: Lei %s\n" buff'
    _ ← sleep 10
    printf "\nPARENT: Escribo chau\n" []
    _ ← write parent_to_child.write_end chau
    _ ← sleep 10
    printf "PARENT: espero hijo\n" []
    _ ← wait
    printf "PARENT: fin\n" []
    exit 0
