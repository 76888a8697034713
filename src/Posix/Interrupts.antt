-- ===== src/Posix/Interrupts.antt =====
-- A program that signals interrupt: a signal can come before any system call, and the calls are restarted
-- behind the handler, as they are with SA_RESTART.
use cese_sopg_github_io.Common.{Option, none, some, List, [], ◌∷◌}
use cese_sopg_github_io.Posix.Defs.{
  Signal, Call, Reply, Prog, done, exit, fault, call, ◌>>◌, Outcome, running, exited, crashed, run,
}

-- The run of a program with its handlers, and the part of the schedule that is left at its end. An item of the
-- schedule is a signal, whose handler begins, or a call of what runs then, be it the program or a handler.
unfoldable pub run_interrupted :
    {S A : Type 0}
    → ((c : Call) → S → Reply c × S)
    → (Signal → Prog (Unit {0}))
    → List (Option Signal)
    → Prog A
    → S
    → Outcome A × S × List (Option Signal)
unfolding run
run_interrupted os handler [] p s = let (o, s') = run os p s in (o, s', [])
run_interrupted os handler (e ∷ es) (done a) s = (running a, s, e ∷ es)
run_interrupted os handler (e ∷ es) (exit n) s = (exited n, s, e ∷ es)
run_interrupted os handler (e ∷ es) fault s = (crashed, s, e ∷ es)
run_interrupted os handler (some sig ∷ es) (call c k) s =
    run_interrupted os handler es (handler sig >> call c k) s
run_interrupted os handler (none ∷ es) (call c k) s =
    let (r, s') = os c s in run_interrupted os handler es (k r) s'
