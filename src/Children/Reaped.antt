-- ===== src/Children/Reaped.antt =====
-- material-clases/clase3/practica2.c: a signal in each of the three calls of the parent that wait.
use cese_sopg_github_io.Common.{
  ℕ, zero, suc, ◌+◌, ◌<◌, ◌≡◌, refl, ap, ap₂, sym, ◌∙◌, String, List, [], ◌∷◌, ◌++◌, append_assoc,
  append-nil, arith,
}
use cese_sopg_github_io.Posix.{
  Call, Ret, exit, clip, num, fail, eintr, Prog, ◌>>=◌, ◌>>◌, Outcome, running, exited, crashed,
  run,
}
use cese_sopg_github_io.Posix.Sys.{printf, pause, sleep}
use cese_sopg_github_io.Memory.{Bytes}
use cese_sopg_github_io.Posix.Blocking.{run_blocking, run_blocking-interrupted}
use cese_sopg_github_io.Children.{handle_sigchld, parent, on_slept, on_read}
use cese_sopg_github_io.Children.Kernel.{World, child_os, interrupted}

abbrev pub world : List ℕ → ℕ → ℕ → List Call → World
world signals ended x shown = record { signals = signals; ended = ended; x = x; shown = shown }

abbrev kept : Outcome ℕ × World → Outcome (Unit {0}) × World
kept (running x, w) = (running tt, record w { x = x })
kept (exited n, w) = (exited n, w)
kept (crashed, w) = (crashed, w)

-- The handler, with at most `n` passes, whose static variable is part of the state.
abbrev pub handle : ℕ → World → Outcome (Unit {0}) × World
handle n w = kept (run child_os (handle_sigchld n w.x) w)

-- What the handler shows of children that have ended, from a value of `x` on.
abbrev pub taken_from : ℕ → ℕ → List Call
taken_from x zero = []
taken_from x (suc ended) = Call.printf "Termino hijo %d\n" (num x ∷ []) ∷ taken_from (x + 1) ended

reaps :
    (ended n x x' : ℕ) (signals : List ℕ) (shown : List Call)
    → ended < n
    → run child_os (handle_sigchld n x) (world signals ended x' shown)
      ≡ (running (x + ended), world signals 0 x' (shown ++ taken_from x ended))
unfolding run handle_sigchld
reaps zero zero x x' signals shown h = absurd (omega arith)
reaps (suc ended) zero x x' signals shown h = absurd (omega arith)
reaps zero (suc n) x x' signals shown h =
    ap₂ (λ y s. (running y, world signals 0 x' s)) (omega arith) (sym (append-nil shown))
reaps (suc ended) (suc n) x x' signals shown h =
    let e : (x + 1) + ended ≡ x + suc ended = omega arith in
    reaps ended n (x + 1) x' signals (shown ++ (Call.printf "Termino hijo %d\n" (num x ∷ []) ∷ []))
      (omega arith)
    ∙ ap₂ (λ y s. (running y, world signals 0 x' s)) e
        (append_assoc shown (Call.printf "Termino hijo %d\n" (num x ∷ []) ∷ [])
          (taken_from (x + 1) ended))

-- The handler takes every child that has ended.
handles :
    (ended n x : ℕ) (signals : List ℕ) (shown : List Call)
    → ended < n
    → handle n (world signals (0 + ended) x shown)
      ≡ (running tt, world signals 0 (x + ended) (shown ++ taken_from x ended))
handles ended n x signals shown h =
    let e : 0 + ended ≡ ended = omega arith in
    ap (λ y. kept (run child_os (handle_sigchld n x) (world signals y x shown))) e
    ∙ ap kept (reaps ended n x x signals shown h)

abbrev pub said : String → Call
said format = Call.printf format []

-- What the parent has shown before each of the three calls, by how many children have ended at the signals.
abbrev before_read : List Call
before_read =
    Call.printf "Padre: esperando el evento de señal %d\n" (num 1000 ∷ [])
    ∷ said "Padre: esperando entrada (read)\n"
    ∷ []

abbrev before_sleep : ℕ → List Call
before_sleep a =
    ((before_read ++ taken_from 1 a) ++ (Call.perror "read" ∷ []))
    ++ (said "Padre: durmiendo por 10 segundos (sleep)\n" ∷ [])

abbrev before_pause : ℕ → ℕ → List Call
before_pause a b =
    ((before_sleep a ++ taken_from (1 + a) b) ++ (said "Padre: sueño interrumpido\n" ∷ []))
    ++ (said "Padre: esperando señal (pause)\n" ∷ [])

abbrev pub transcript : ℕ → ℕ → ℕ → List Call
transcript a b c =
    ((before_pause a b ++ taken_from ((1 + a) + b) c) ++ (said "Padre: señal recibida\n" ∷ []))
    ++ (said "Padre: terminando\n" ∷ [])

paused : Ret ℕ → Prog (Unit {0})
paused r = do printf "Padre: señal recibida\n" []; printf "Padre: terminando\n" []; exit 0

slept : ℕ → Prog (Unit {0})
slept left = do on_slept left; printf "Padre: esperando señal (pause)\n" []; r ← pause; paused r

got : Ret Bytes → Prog (Unit {0})
got ret = do
  on_read (clip 10 ret)
  printf "Padre: durmiendo por 10 segundos (sleep)\n" []
  left ← sleep 10
  slept left

-- A signal comes in each of the three calls that wait, `a`, `b` and `c` children have ended when it does, and
-- the loop of the handler may make more passes than each. Then the parent shows that `read` failed, that its
-- sleep was interrupted and that a signal came, ends with success, and its handler has taken every child, which
-- it has numbered from 1 on, also where several have ended at one signal or none.
pub parent-signalled :
    (n a b c : ℕ)
    → a < n
    → b < n
    → c < n
    → run_blocking child_os interrupted (handle n) parent (world (a ∷ b ∷ c ∷ []) 0 1 [])
      ≡ (exited 0, world [] 0 (((1 + a) + b) + c) (transcript a b c))
unfolding run_blocking parent paused slept got
parent-signalled n a b c ha hb hc =
    run_blocking-interrupted child_os interrupted (handle n) (Call.read 0 10) got
      (world (a ∷ b ∷ c ∷ []) 0 1 before_read) (world (b ∷ c ∷ []) (0 + a) 1 before_read)
      (world (b ∷ c ∷ []) 0 (1 + a) (before_read ++ taken_from 1 a)) (fail eintr) refl
      (handles a n 1 (b ∷ c ∷ []) before_read ha)
    ∙ run_blocking-interrupted child_os interrupted (handle n) (Call.sleep 10) slept
        (world (b ∷ c ∷ []) 0 (1 + a) (before_sleep a))
        (world (c ∷ []) (0 + b) (1 + a) (before_sleep a))
        (world (c ∷ []) 0 ((1 + a) + b) (before_sleep a ++ taken_from (1 + a) b)) 10 refl
        (handles b n (1 + a) (c ∷ []) (before_sleep a) hb)
    ∙ run_blocking-interrupted child_os interrupted (handle n) Call.pause paused
        (world (c ∷ []) 0 ((1 + a) + b) (before_pause a b))
        (world [] (0 + c) ((1 + a) + b) (before_pause a b))
        (world [] 0 (((1 + a) + b) + c) (before_pause a b ++ taken_from ((1 + a) + b) c))
        (fail eintr) refl (handles c n ((1 + a) + b) [] (before_pause a b) hc)
