-- ===== src/Pipes/Exchange.antt =====
-- material-clases/clase3/ejemplo-pipes.c: what the process and its child show.
use cese_sopg_github_io.Common.{
  ℕ, ◌≤◌, ◌≡◌, refl, true, false, String, List, [], ◌∷◌, ◌++◌, length, arith,
}
use cese_sopg_github_io.Memory.{Bytes, codes, until_nul}
use cese_sopg_github_io.Memory.Strings.{copy_at-written, c_string-written}
use cese_sopg_github_io.Posix.{Arg, num, str, Prog, exit, ok, ◌>>=◌, ◌>>◌}
use cese_sopg_github_io.Posix.Sys.{printf, sleep, write, wait, exit_group}
use cese_sopg_github_io.Posix.Terminal.{Shown}
use cese_sopg_github_io.Processes.{Ends, halted}
use cese_sopg_github_io.Processes.Orders.{
  only_left, only_right, settle_left, settle_right, as_left, as_right,
}
use cese_sopg_github_io.Pipes.{Pipe, hola, chau, filled, show, child, parent}
use cese_sopg_github_io.Pipes.Kernels.{
  Between, Own, inner, child_outer, parent_outer, child_side, parent_side,
}

abbrev line : String → List Arg → Shown
line format args = record { format = format; args = args }

abbrev pub child_shows : List Shown
child_shows =
    line "CHILD: inicio %d\n" (num 1001 ∷ [])
    ∷ line "CHILD: Escribo hola\n" []
    ∷ line "CHILD: Leo\n" []
    ∷ line "CHILD: Lei %s\n" (str (codes "chau") ∷ [])
    ∷ line "\nCHILD: fin\n" []
    ∷ []

abbrev pub parent_shows : List Shown
parent_shows =
    line "PARENT: inicio %d\n" (num 1000 ∷ [])
    ∷ line "PARENT: Leo\n" []
    ∷ line "PARENT: Lei %s\n" (str (codes "hola") ∷ [])
    ∷ line "\nPARENT: Escribo chau\n" []
    ∷ line "PARENT: espero hijo\n" []
    ∷ line "PARENT: fin\n" []
    ∷ []

abbrev pub first_pipe : Pipe
first_pipe = record { read_end = 3; write_end = 4 }

abbrev pub second_pipe : Pipe
second_pipe = record { read_end = 5; write_end = 6 }

abbrev pub between : Bytes → Bytes → Between
between a b = record { to_parent = a; to_child = b; ended = false }

abbrev pub own : List Shown → List ℕ → Own
own shown open_ends = record { shown = shown; open_ends = open_ends }

-- A process behind `fork`, with both ends of both pipes.
abbrev pub forked : Own
forked = own [] (3 ∷ 4 ∷ 5 ∷ 6 ∷ [])

-- Both processes have ended with success, with what each has shown and the two ends each has kept: the child
-- the write end of the first pipe and the read end of the second, and the process the others. The child has
-- ended, and the pipes are empty.
abbrev pub BothShown : Prog (Unit {0}) → Own → Prog (Unit {0}) → Own → Between → Type 0
BothShown p l q r m =
    (p ≡ exit 0)
    × (l ≡ own child_shows (4 ∷ 5 ∷ []))
    × (q ≡ exit 0)
    × (r ≡ own parent_shows (3 ∷ 6 ∷ []))
    × (m ≡ record (between [] []) { ended = true })

shows :
    (format : String) (buff text : Bytes) (rest : Prog (Unit {0}))
    → length text ≤ 29
    → until_nul text ≡ text
    → length buff ≡ 30
    → (filled buff (ok (text ++ (0 ∷ []))) >>= λ b. show format b >> rest)
      ≡ (printf format (str text ∷ []) >> rest)
shows format buff text rest h clean room =
    rw (copy_at-written buff text (omega arith), c_string-written buff text clean) refl

-- The pipes are empty, both processes have all four ends open, and the array has 30 bytes. Then in every order
-- in which the system calls of the process and its child can follow one another neither waits for ever: the
-- child shows what the process wrote and the process what the child wrote, each has closed the two ends it does
-- not use, and the process ends when its child has ended.
pub exchange-BothShown :
    (buff : Bytes)
    → length buff ≡ 30
    → Ends child_side parent_side BothShown
        (child first_pipe second_pipe buff)
        forked
        (parent first_pipe second_pipe buff)
        forked
        (between [] [])
unfolding child parent
exchange-BothShown buff room = settle_left (inner 1001) child_outer _ _ (
    settle_right (inner 1000) parent_outer _ _ (
      only_left {m' = between hola []} refl refl (
        settle_left (inner 1001) child_outer _ _ (
          only_right {a = ok hola} {m' = between [] []} refl refl (
            as_right
              (shows "PARENT: Lei %s\n" buff (codes "hola") behind_parent (omega arith) refl room)
              (settle_right (inner 1000) parent_outer _ _ (
                only_right {m' = between [] chau} refl refl (
                  settle_right (inner 1000) parent_outer _ _ (
                    only_left {a = ok chau} {m' = between [] []} refl refl (
                      as_left
                        (shows "CHILD: Lei %s\n" buff (codes "chau") behind_child (omega arith) refl
                          room)
                        (settle_left (inner 1001) child_outer _ _ (
                          only_left refl refl (
                            only_right refl refl (
                              settle_right (inner 1000) parent_outer _ _
                                (halted refl refl (refl, refl, refl, refl, refl))))))))))))))))
  where
    behind_child : Prog (Unit {0})
    behind_child = sleep 2 >> printf "\nCHILD: fin\n" [] >> exit_group 0

    behind_parent : Prog (Unit {0})
    behind_parent =
        sleep 10
        >> printf "\nPARENT: Escribo chau\n" []
        >> write 6 chau
        >> sleep 10
        >> printf "PARENT: espero hijo\n" []
        >> wait
        >> printf "PARENT: fin\n" []
        >> exit 0
