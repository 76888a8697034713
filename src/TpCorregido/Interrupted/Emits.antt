-- ===== src/TpCorregido/Interrupted/Emits.antt =====
-- Programs that put whole frames into the FIFO.
use cese_sopg_github_io.Common.{
  sym, subst, ap₂, ℕ, map, ◌≢◌, ◌≡◌, refl, ap, ◌∙◌, List, [], ◌∷◌, ◌++◌, append_assoc, append-nil,
  length, ◌≤◌, take, take_of_le, drop_of_le,
}
use cese_sopg_github_io.Memory.{codes, Bytes}
use cese_sopg_github_io.Posix.{
  num, str, Ret, ok, Call, Reply, Prog, done, exit, fault, call, ◌>>◌, running, run, Signal,
}
use cese_sopg_github_io.TpCorregido.Kernel.{put_back, File, writer_os}
use cese_sopg_github_io.TpCorregido.Protocol.{payload, data_frame}
use cese_sopg_github_io.TpCorregido.Writer
use cese_sopg_github_io.TpCorregido.Spec.{on_sent}
use cese_sopg_github_io.TpCorregido.Writer.Refine.{
  after_read_text, round-refines, sigusr_handler-refines,
}
use cese_sopg_github_io.TpCorregido.Link.Backlog.{waiting}
use cese_sopg_github_io.TpCorregido.Link.Lockstep.{ShortLines}
use cese_sopg_github_io.TpCorregido.Interrupted.{Sent, text, mark, frame, all_frames}

-- Whatever the FIFO holds, the program run alone puts the frames of `ss` into it, in order, takes the typed
-- lines `ls` down to `ls'`, and comes to its end.
abbrev pub Emits : Prog (Unit {0}) → List Bytes → List Sent → List Bytes → Type 0
Emits (done a) ls ss ls' = (ss ≡ []) × (ls ≡ ls')
Emits (exit n) ls ss ls' = ⊥
Emits fault ls ss ls' = ⊥
Emits (call c k) ls ss ls' =
    (a : Reply c) × (next : List Bytes) × (now : List Sent) × (later : List Sent) × (ss
      ≡ now ++ later)
    × ((fifo : Bytes) (log signals : File)
        → writer_os c (waiting fifo ls log signals)
          ≡ (a, waiting (fifo ++ all_frames now) next log signals))
    × Emits (k a) next later ls'

pub all_frames-append :
    (ss ss' : List Sent) → all_frames (ss ++ ss') ≡ all_frames ss ++ all_frames ss'
all_frames-append [] ss' = refl
all_frames-append (s ∷ ss) ss' = rw (all_frames-append ss ss', append_assoc) refl

pub Emits->> :
    (p q : Prog (Unit {0})) (ls ls' ls'' : List Bytes) (ss ss' : List Sent)
    → Emits p ls ss ls'
    → Emits q ls' ss' ls''
    → Emits (p >> q) ls (ss ++ ss') ls''
Emits->> (done a) q ls ls' ls'' ss ss' (e, e') h = rw (e, e') h
Emits->> (exit n) q ls ls' ls'' ss ss' h h' = absurd h
Emits->> fault q ls ls' ls'' ss ss' h h' = absurd h
Emits->> (call c k) q ls ls' ls'' ss ss' (a, next, now, later, e, effect, h) h' = (
  a,
  next,
  now,
  later ++ ss',
  ap (λ l. l ++ ss') e ∙ append_assoc now later ss',
  effect,
  Emits->> (k a) q next ls' ls'' later ss' h h',
)

-- One that is run to its end does so.
pub run-Emits :
    (p : Prog (Unit {0})) (ls ls' : List Bytes) (ss : List Sent) (fifo : Bytes) (log signals : File)
    → Emits p ls ss ls'
    → run writer_os p (waiting fifo ls log signals)
      ≡ (running tt, waiting (fifo ++ all_frames ss) ls' log signals)
unfolding run
run-Emits (done a) ls ls' ss fifo log signals (e, e') = rw (e, e', append-nil) refl
run-Emits (exit n) ls ls' ss fifo log signals h = absurd h
run-Emits fault ls ls' ss fifo log signals h = absurd h
run-Emits (call c k) ls ls' ss fifo log signals (a, next, now, later, e, effect, h) =
    rw (effect fifo log signals, e, all_frames-append now later)
      (run-Emits (k a) next ls' later (fifo ++ all_frames now) log signals h
        ∙ ap (λ f. (running tt, waiting f ls' log signals))
            (append_assoc fifo (all_frames now) (all_frames later)))

-- A call that leaves all as it is.
pub quiet-Emits :
    (c : Call) (k : Reply c → Prog (Unit {0})) (ls ls' : List Bytes) (ss : List Sent) (a : Reply c)
    → ((fifo : Bytes) (log signals : File)
        → writer_os c (waiting fifo ls log signals) ≡ (a, waiting fifo ls log signals))
    → Emits (k a) ls ss ls'
    → Emits (call c k) ls ss ls'
quiet-Emits c k ls ls' ss a effect h =
    (a, ls, [], ss, refl, (λ fifo log signals. rw (append-nil) (effect fifo log signals)), h)

-- The `write` of a frame.
write-Emits :
    (k : Ret ℕ → Prog (Unit {0})) (ls ls' : List Bytes) (s : Sent) (ss : List Sent)
    → Emits (k (ok (length (frame s)))) ls ss ls'
    → Emits (call (Call.write 3 (frame s)) k) ls (s ∷ ss) ls'
write-Emits k ls ls' s ss h =
    (ok (length (frame s)), ls, s ∷ [], ss, refl, (λ fifo log signals. rw append-nil refl), h)

-- The handlers do.
pub handler-Emits :
    (x : ℕ) (more : Bytes) (sig : Signal) (ls : List Bytes)
    → Emits (Writer.sigusr_handler (x ∷ more) 3 sig) ls (mark sig ∷ []) ls
handler-Emits x more sig ls = rw (sigusr_handler-refines x more 3 sig) (
    write-Emits Writer.on_signal_written ls ls (mark sig) [] (
      quiet-Emits (Call.write 1 (codes "-->>Writer: wrote in FIFO_NAME from 'sigusr_handler' \n"))
        (λ r. done tt) ls ls [] (ok _) (λ fifo log signals. refl) (refl, refl)))

-- What follows a `read` that brings something.
after_read-Emits :
    (bytes : Bytes) (ls : List Bytes)
    → bytes ≢ []
    → Emits (after_read_text 3 (ok bytes)) ls (text (payload bytes) ∷ []) ls
after_read-Emits [] ls some_input = absurd (some_input refl)
after_read-Emits (b ∷ bs) ls some_input =
    write-Emits (on_sent sent) ls ls (text (payload (b ∷ bs))) [] (
      quiet-Emits
        (Call.printf "-->>Writer: %ld bytes wroten in FIFO_NAME: \"%s\"\n"
          (num (length sent) ∷ str sent ∷ []))
        (λ r. done tt) ls ls [] tt (λ fifo log signals. refl) (refl, refl))
  where
    sent : Bytes
    sent = data_frame (payload (b ∷ bs))

-- So does a pass of the loop, on a line that one `read` brings.
round-Emits :
    (rest l : Bytes) (ls : List Bytes)
    → l ≢ []
    → length l ≤ 20
    → Emits (Writer.round rest 3) (l ∷ ls) (text (payload l) ∷ []) ls
round-Emits rest l ls some_input short = rw (round-refines rest 3) (
  ok l,
  ls,
  [],
  text (payload l) ∷ [],
  refl,
  (λ fifo log signals. rw append-nil (
      ap₂ (λ x y. (ok x, waiting fifo y log signals)) whole
        (ap (λ d. put_back d ls) (drop_of_le 20 l short)))),
  subst (λ bytes. Emits (after_read_text 3 (ok bytes)) ls (text (payload l) ∷ []) ls) (sym whole)
      (after_read-Emits l ls some_input),
)
  where
    whole : take 20 l ≡ l
    whole = take_of_le 20 l short

module _ (rest : Bytes) where
  pub loop-Emits :
      (ls : List Bytes)
      → ShortLines ls
      → Emits (Writer.loop rest (length ls) 3) ls (map (λ l. text (payload l)) ls) []
  unfolding Writer.loop
  loop-Emits [] h = (refl, refl)
  loop-Emits (l ∷ ls) h =
      Emits->> (Writer.round rest 3) (Writer.loop rest (length ls) 3) (l ∷ ls) ls []
        (text (payload l) ∷ []) (map (λ l. text (payload l)) ls) (round-Emits rest l ls h.0 h.1)
        (loop-Emits ls h.2)
