-- ===== src/Children.antt =====
-- material-clases/clase3/practica2.c: calls that wait, interrupted by SIGCHLD without SA_RESTART, and a handler
-- that takes the children that have ended.
pub mod Kernel
pub mod Reaped
mod Tests
use cese_sopg_github_io.Common.{ℕ, zero, suc, ◌+◌, [], ◌∷◌}
use cese_sopg_github_io.Memory.{Bytes}
use cese_sopg_github_io.Posix.{
  sigchld, Handler, num, Ret, fail, ok, Prog, done, exit, ◌>>=◌, ◌>>◌, exit_success, exit_failure,
  stdin_fileno, failed, die_if,
}
use cese_sopg_github_io.Posix.Sys.{
  sigaction, fork, getpid, read, sleep, pause, waitpid_any, printf, perror,
}

-- The test of the handler's loop; `x` is its static variable, and `rest` the loop from the next pass on.
abbrev pub on_reaped : ℕ → Prog ℕ → Ret ℕ → Prog ℕ
on_reaped x rest (fail e) = done x
on_reaped x rest (ok zero) = done x
on_reaped x rest (ok (suc pid)) = printf "Termino hijo %d\n" (num x ∷ []) >> rest

-- `handle_sigchld`, the first `n` passes of its loop; the result is what `x` holds behind them.
unfoldable pub handle_sigchld : ℕ → ℕ → Prog ℕ
handle_sigchld zero x = done x
handle_sigchld (suc n) x =
    let rest = handle_sigchld n (x + 1) in do r ← waitpid_any; on_reaped x rest r

unfoldable pub child : Prog (Unit {0})
child = do
  printf "Hijo: durmiendo por 5 segundos\n" []
  _ ← sleep 5
  printf "Hijo: terminando\n" []
  exit exit_success

abbrev pub on_read : Ret Bytes → Prog (Unit {0})
on_read (fail e) = perror "read"
on_read (ok bytes) = printf "Padre: entrada recibida\n" []

-- `sleep` gives the seconds that are left.
abbrev pub on_slept : ℕ → Prog (Unit {0})
on_slept zero = printf "Padre: sueño completo\n" []
on_slept (suc left) = printf "Padre: sueño interrumpido\n" []

unfoldable pub parent : Prog (Unit {0})
parent = do
  pid ← getpid
  printf "Padre: esperando el evento de señal %d\n" (num pid ∷ [])
  printf "Padre: esperando entrada (read)\n" []
  ret ← read stdin_fileno 10
  on_read ret
  printf "Padre: durmiendo por 10 segundos (sleep)\n" []
  left ← sleep 10
  on_slept left
  printf "Padre: esperando señal (pause)\n" []
  _ ← pause
  printf "Padre: señal recibida\n" []
  printf "Padre: terminando\n" []
  exit 0

abbrev pub on_forked : Ret ℕ → Prog (Unit {0})
on_forked (fail e) = perror "fork" >> exit exit_failure
on_forked (ok zero) = child
on_forked (ok (suc pid)) = parent

unfoldable pub main : Prog (Unit {0})
main = do
  installed ← sigaction sigchld Handler.child_handler
  die_if (failed installed) "sigaction"
  pid ← fork
  on_forked pid
