-- ===== src/TpCorregido/Interrupted/Whole.antt =====
-- Whatever the signals interrupt, what is in the FIFO are whole frames.
use cese_sopg_github_io.Common.{
  ℕ, ◌+◌, ◌≡◌, refl, ap, ◌∙◌, sym, subst, Option, none, some, List, [], ◌∷◌, ◌++◌, append_assoc,
  append-nil, map, length, arith,
}
use cese_sopg_github_io.Memory.{Bytes}
use cese_sopg_github_io.Posix.{
  Signal, sigusr1, sigusr2, Prog, done, exit, fault, call, ◌>>◌, Outcome, running, run_interrupted,
}
use cese_sopg_github_io.TpCorregido.Kernel.{World, File, writer_os}
use cese_sopg_github_io.TpCorregido.Protocol.{payload}
use cese_sopg_github_io.TpCorregido.Writer
use cese_sopg_github_io.TpCorregido.Link.Backlog.{waiting}
use cese_sopg_github_io.TpCorregido.Link.Lockstep.{ShortLines}
use cese_sopg_github_io.TpCorregido.Interrupted.{
  Sent, text, mark, all_frames, texts, marks, deliveries, handler, UserSignals, UserMarks,
}
use cese_sopg_github_io.TpCorregido.Interrupted.Emits.{
  Emits, Emits->>, run-Emits, handler-Emits, loop-Emits, all_frames-append,
}

texts-append : (ss ss' : List Sent) → texts (ss ++ ss') ≡ texts ss ++ texts ss'
texts-append [] ss' = refl
texts-append (text t ∷ ss) ss' = ap (λ ts. t ∷ ts) (texts-append ss ss')
texts-append (mark sig ∷ ss) ss' = texts-append ss ss'

marks-append :
    (sig : Signal) (ss ss' : List Sent) → marks sig (ss ++ ss') ≡ marks sig ss + marks sig ss'
marks-append sig [] ss' = omega arith
marks-append sig (text t ∷ ss) ss' = marks-append sig ss ss'
marks-append sig (mark s ∷ ss) ss' = omega (arith, marks-append sig ss ss')

UserMarks-append : (ss ss' : List Sent) → UserMarks ss → UserMarks ss' → UserMarks (ss ++ ss')
UserMarks-append [] ss' h h' = h'
UserMarks-append (text t ∷ ss) ss' h h' = UserMarks-append ss ss' h h'
UserMarks-append (mark sigusr1 ∷ ss) ss' h h' = UserMarks-append ss ss' h h'
UserMarks-append (mark sigusr2 ∷ ss) ss' h h' = UserMarks-append ss ss' h h'
UserMarks-append (mark sig ∷ ss) ss' h h' = absurd h

UserMarks-halves : (ss ss' : List Sent) → UserMarks (ss ++ ss') → UserMarks ss × UserMarks ss'
UserMarks-halves [] ss' h = (tt, h)
UserMarks-halves (text t ∷ ss) ss' h = UserMarks-halves ss ss' h
UserMarks-halves (mark sigusr1 ∷ ss) ss' h = UserMarks-halves ss ss' h
UserMarks-halves (mark sigusr2 ∷ ss) ss' h = UserMarks-halves ss ss' h
UserMarks-halves (mark sig ∷ ss) ss' h = absurd h

UserMarks-map : (ls : List Bytes) → UserMarks (map (λ l. text (payload l)) ls)
UserMarks-map [] = tt
UserMarks-map (l ∷ ls) = UserMarks-map ls

module _ (x : ℕ) (more : Bytes) (log signals : File) where
  -- The program comes to its end with whole frames behind what was in the FIFO: the texts are those that it
  -- sends alone, in order, and each signal has a frame for each of its own and for each delivery.
  abbrev ComesOut :
      List (Option Signal) → Prog (Unit {0}) → Bytes → List Bytes → List Sent → List Bytes → Type 0
  ComesOut es p fifo ls ss ls' =
      (sent : List Sent) × (left : List (Option Signal)) × (run_interrupted writer_os
          (handler (x ∷ more)) es p (waiting fifo ls log signals)
        ≡ (running tt, waiting (fifo ++ all_frames sent) ls' log signals, left))
      × UserMarks sent
      × (texts sent ≡ texts ss)
      × ((sig : Signal) → marks sig sent + deliveries sig left ≡ marks sig ss + deliveries sig es)

  Emits-ComesOut :
      (es : List (Option Signal)) (p : Prog (Unit {0})) (fifo : Bytes) (ls : List Bytes)
      (ss : List Sent) (ls' : List Bytes)
      → UserSignals es
      → UserMarks ss
      → Emits p ls ss ls'
      → ComesOut es p fifo ls ss ls'
  unfolding run_interrupted
  Emits-ComesOut [] p fifo ls ss ls' u user h = (
    ss,
    [],
    ap (λ (r : Outcome (Unit {0}) × World). (r.0, r.1, []))
        (run-Emits p ls ls' ss fifo log signals h),
    user,
    refl,
    λ sig. refl,
  )
  Emits-ComesOut (e ∷ es) (done tt) fifo ls ss ls' u user (none_sent, same) =
      ([], e ∷ es, rw (append-nil, same) refl, tt, rw none_sent refl, λ sig. rw none_sent refl)
  Emits-ComesOut (e ∷ es) (exit n) fifo ls ss ls' u user h = absurd h
  Emits-ComesOut (e ∷ es) fault fifo ls ss ls' u user h = absurd h
  Emits-ComesOut (none ∷ es) (call c k) fifo ls ss ls' u user (a, next, now, later, e, effect, h) =
      let (user_now, user_later) = UserMarks-halves now later (subst UserMarks e user) in
      let (sent, left, ran, marked, same, counted) =
        Emits-ComesOut es (k a) (fifo ++ all_frames now) next later ls' u user_later h in
      (
        now ++ sent,
        left,
        rw
            (
              effect fifo log signals,
              all_frames-append now sent,
              ← append_assoc fifo (all_frames now) (all_frames sent),
            )
            ran,
        UserMarks-append now sent user_now marked,
        rw e (texts-append now sent ∙ ap (λ t. texts now ++ t) same ∙ sym (texts-append now later)),
        λ sig.
            rw e
              (omega (arith, marks-append sig now sent, marks-append sig now later, counted sig)),
      )
  Emits-ComesOut (some sigusr1 ∷ es) (call c k) fifo ls ss ls' u user h =
      let (sent, left, ran, marked, same, counted) =
        Emits-ComesOut es (handler (x ∷ more) sigusr1 >> call c k) fifo ls (mark sigusr1 ∷ ss) ls' u
          user
          (Emits->> (handler (x ∷ more) sigusr1) (call c k) ls ls ls' (mark sigusr1 ∷ []) ss
            (handler-Emits x more sigusr1 ls) h) in
      (sent, left, ran, marked, same, λ sig. omega (arith, counted sig))
  Emits-ComesOut (some sigusr2 ∷ es) (call c k) fifo ls ss ls' u user h =
      let (sent, left, ran, marked, same, counted) =
        Emits-ComesOut es (handler (x ∷ more) sigusr2 >> call c k) fifo ls (mark sigusr2 ∷ ss) ls' u
          user
          (Emits->> (handler (x ∷ more) sigusr2) (call c k) ls ls ls' (mark sigusr2 ∷ []) ss
            (handler-Emits x more sigusr2 ls) h) in
      (sent, left, ran, marked, same, λ sig. omega (arith, counted sig))
  Emits-ComesOut (some sig ∷ es) (call c k) fifo ls ss ls' u user h = absurd u

texts-map : (ls : List Bytes) → texts (map (λ l. text (payload l)) ls) ≡ map payload ls
texts-map [] = refl
texts-map (l ∷ ls) = ap (λ ts. payload l ∷ ts) (texts-map ls)

marks-map : (sig : Signal) (ls : List Bytes) → marks sig (map (λ l. text (payload l)) ls) ≡ 0
marks-map sig [] = refl
marks-map sig (l ∷ ls) = marks-map sig ls

-- Each line that is typed has 1 to 20 bytes, the handlers have at least one byte behind their array, and
-- SIGUSR1 and SIGUSR2 come before any system calls of the loop or of a handler that runs, as often as may be.
-- Then as many passes of the Writer's loop as there are lines come to their end, the lines are all read, and
-- behind what was in the FIFO there are whole frames and nothing else: those of the lines' texts, in order, and
-- among them for each of the two signals as many of its frames as it was delivered, and none of another signal.
pub interrupted_loop-whole :
    (rest : Bytes) (x : ℕ) (more : Bytes) (log signals : File) (es : List (Option Signal))
    (fifo : Bytes) (ls : List Bytes)
    → UserSignals es
    → ShortLines ls
    → (sent : List Sent) × (left : List (Option Signal)) × (run_interrupted writer_os
          (handler (x ∷ more))
          es
          (Writer.loop rest (length ls) 3)
          (waiting fifo ls log signals)
        ≡ (running tt, waiting (fifo ++ all_frames sent) [] log signals, left))
      × UserMarks sent
      × (texts sent ≡ map payload ls)
      × ((sig : Signal) → marks sig sent + deliveries sig left ≡ deliveries sig es)
interrupted_loop-whole rest x more log signals es fifo ls u short =
    let (sent, left, ran, marked, same, counted) =
      Emits-ComesOut x more log signals es (Writer.loop rest (length ls) 3) fifo ls
        (map (λ l. text (payload l)) ls) [] u (UserMarks-map ls) (loop-Emits rest ls short) in
    (
      sent,
      left,
      ran,
      marked,
      same ∙ texts-map ls,
      λ sig. omega (arith, counted sig, marks-map sig ls),
    )
