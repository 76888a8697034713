-- ===== src/TimedWait.antt =====
-- material-clases/clase7/ejemplo-sem/sem.c: a wait for a semaphore with a time limit, which the handler of an
-- alarm posts.
pub mod Alarmed
pub mod Waits
mod Tests
use cese_sopg_github_io.Common.{
  ℕ, zero, suc, ◌+◌, Option, none, some, String, List, [], ◌∷◌, ◌++◌, if◌then◌else◌, ltb, ◌==◌,
  Bool, ◌||◌, ◌&&◌, ◌*◌, ◌-◌, leb,
}
use cese_sopg_github_io.Memory.{Bytes, codes}
use cese_sopg_github_io.Posix.{
  Call, sigalrm, Handler, str, Ret, fail, ok, Prog, done, exit, call, ◌>>=◌, ◌>>◌, eintr, etimedout,
  exit_success, exit_failure, failed, die_if,
}
use cese_sopg_github_io.Posix.Sys.{
  sem_init, sem_post, sem_timedwait, alarm, clock_gettime, sigaction, write_stdout, print_error,
  printf, perror,
}

-- The number at the front of a text.
abbrev pub atoi_from : ℕ → Bytes → ℕ
atoi_from v [] = v
atoi_from v (b ∷ bs) =
    let rest = atoi_from (v * 10 + (b - b'0')) bs in if leb b'0' b && leb b b'9' then rest else v

abbrev behind_sign : Bytes → ℕ
behind_sign [] = 0
behind_sign (b ∷ bs) = if b == b'+' then atoi_from 0 bs else atoi_from 0 (b ∷ bs)

-- `isspace`
abbrev is_space : ℕ → Bool
is_space b = b == b' ' || leb 9 b && leb b 13

-- The C library's `atoi` of a text without a minus sign, where an int holds the value. C leaves the result for
-- a larger one undefined.
unfoldable pub atoi : Bytes → ℕ
atoi [] = 0
atoi (b ∷ bs) = let rest = atoi bs in if is_space b then rest else behind_sign (b ∷ bs)

-- What follows `sem_post` in `handler`.
abbrev pub on_posted : Ret ℕ → Prog (Unit {0})
on_posted (ok r) = done tt
on_posted (fail e) = print_error "sem_post() failed\n" >> exit exit_failure

unfoldable pub handler : Prog (Unit {0})
handler = do write_stdout "sem_post() from handler\n"; posted ← sem_post; on_posted posted

-- The test of the loop: a wait that a signal interrupts is made again.
abbrev pub again : Prog (Ret ℕ) → Ret ℕ → Prog (Ret ℕ)
again rest (ok r) = done (ok r)
again rest (fail e) = if e == eintr then rest else done (fail e)

-- The first `n + 1` waits of the loop.
unfoldable pub wait_loop : ℕ → ℕ → Prog (Ret ℕ)
wait_loop zero deadline = sem_timedwait deadline
wait_loop (suc n) deadline =
    let rest = wait_loop n deadline in do s ← sem_timedwait deadline; again rest s

abbrev pub on_waited : Ret ℕ → Prog (Unit {0})
on_waited (ok r) = printf "sem_timedwait() succeeded\n" [] >> exit exit_success
on_waited (fail e) = do
  if e == etimedout then printf "sem_timedwait() timed out\n" [] else perror "sem_timedwait"
  exit exit_failure

abbrev pub on_clock : ℕ → ℕ → Ret ℕ → Prog (Unit {0})
on_clock n wait_secs (fail e) = perror "clock_gettime" >> exit exit_failure
on_clock n wait_secs (ok now) = do
  printf "%s() about to call sem_timedwait()\n" (str (codes "main") ∷ [])
  s ← wait_loop n (now + wait_secs)
  on_waited s

-- `main` behind its test of `argc`, by the two numbers.
unfoldable pub timed : ℕ → ℕ → ℕ → Prog (Unit {0})
timed n alarm_secs wait_secs = do
  made ← sem_init 0
  die_if (failed made) "sem_init"
  installed ← sigaction sigalrm Handler.alarm_handler
  die_if (failed installed) "sigaction"
  _ ← alarm alarm_secs
  now ← clock_gettime
  on_clock n wait_secs now

abbrev pub usage : Bytes → Prog (Unit {0})
usage name =
    call (Call.write 2 (codes "Usage: " ++ name ++ codes " <alarm-secs> <wait-secs>\n"))
      (λ r. exit exit_failure)

-- `main`, by its arguments; the first is the program's name.
unfoldable pub main : ℕ → List Bytes → Prog (Unit {0})
main n [] = usage []
main n (name ∷ []) = usage name
main n (name ∷ a ∷ []) = usage name
main n (name ∷ a ∷ w ∷ []) = timed n (atoi a) (atoi w)
main n (name ∷ a ∷ w ∷ b ∷ argv) = usage name
