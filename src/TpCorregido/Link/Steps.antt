-- ===== src/TpCorregido/Link/Steps.antt =====
-- What one pass of each loop does to the world.
use cese_sopg_github_io.Common.{
  ℕ, ◌≡◌, ◌≢◌, refl, ap, ◌∙◌, List, [], ◌∷◌, ◌++◌, take, drop, arith, length-take, take_of_le,
}
use cese_sopg_github_io.Memory.{Bytes}
use cese_sopg_github_io.Posix.{Signal, Prog, ok, run, Outcome, running}
use cese_sopg_github_io.TpCorregido.Kernel.{
  World, write_file, writer_os, reader_os, opened, terminal_bytes, terminal_rest,
}
use cese_sopg_github_io.TpCorregido.Protocol.{
  payload, data_frame, sign_frame, route, Route, to_log, to_signals, unknown,
}
use cese_sopg_github_io.TpCorregido.Spec.{send_text, deliver, deliver_to}
use cese_sopg_github_io.TpCorregido.Writer
use cese_sopg_github_io.TpCorregido.Reader
use cese_sopg_github_io.TpCorregido.Writer.Refine as WriterRefine
use cese_sopg_github_io.TpCorregido.Reader.Loop as ReaderLoop

-- The file that a message goes to, with its line.
abbrev pub delivered : Route → World → World
delivered (to_log text) w = record w { log = write_file w.log (text ++ (10 ∷ [])) }
delivered (to_signals text) w = record w { signals = write_file w.signals (text ++ (10 ∷ [])) }
delivered unknown w = w

run-send_text :
    (bytes : Bytes) (w : World)
    → run writer_os (send_text 3 bytes) w
      ≡ (running tt, record w { fifo = w.fifo ++ data_frame (payload bytes) })
unfolding run
run-send_text bytes w = refl

run-deliver :
    (bytes : Bytes) (w : World)
    → run reader_os (deliver 4 5 bytes) w ≡ (running tt, delivered (route bytes) w)
unfolding run
run-deliver bytes w = by_route (route bytes)
  where
    by_route : (r : Route) → run reader_os (deliver_to 4 5 r) w ≡ (running tt, delivered r w)
    by_route (to_log text) = refl
    by_route (to_signals text) = refl
    by_route unknown = refl

-- What one pass of the Writer's loop puts into the FIFO.
abbrev pub sent : World → World
sent w = record w {
  stdin = terminal_rest 20 w.stdin;
  fifo = w.fifo ++ data_frame (payload (terminal_bytes 20 w.stdin));
}

clip-terminal :
    (n : ℕ) (lines : List Bytes) → take n (terminal_bytes n lines) ≡ terminal_bytes n lines
clip-terminal n [] = take_of_le n [] (omega arith)
clip-terminal n (l ∷ ls) = take_of_le n (take n l) (omega (arith, length-take n l))

-- One pass of the Writer's loop, while there is input.
pub run-writer_round :
    (rest : Bytes) (w : World)
    → terminal_bytes 20 w.stdin ≢ []
    → run writer_os (Writer.round rest 3) w ≡ (running tt, sent w)
unfolding run
run-writer_round rest w some_input =
    ap (λ (p : Prog (Unit {0})). run writer_os p w) (WriterRefine.round-refines rest 3)
    ∙ ap after (clip-terminal 20 w.stdin)
    ∙ by_input (terminal_bytes 20 w.stdin) some_input
  where
    after : Bytes → Outcome (Unit {0}) × World
    after bytes =
        run writer_os (WriterRefine.after_read_text 3 (ok bytes))
          (record w { stdin = terminal_rest 20 w.stdin })

    by_input :
        (bytes : Bytes)
        → bytes ≢ []
        → after bytes ≡ (
          running tt,
          record w {
            stdin = terminal_rest 20 w.stdin;
            fifo = w.fifo ++ data_frame (payload bytes);
          },
        )
    by_input [] h = absurd (h refl)
    by_input (b ∷ bs) h = refl

-- What one pass of the Reader's loop takes from the FIFO, as one message.
abbrev pub received : World → World
received w = delivered (route (take 26 w.fifo)) (record w { fifo = drop 26 w.fifo })

-- One pass of the Reader's loop, while there are bytes in the FIFO.
pub run-reader_round :
    (x : ℕ) (more : Bytes) (w : World)
    → w.fifo ≢ []
    → run reader_os (Reader.round (x ∷ more) opened) w ≡ (running tt, received w)
unfolding run
run-reader_round x more w some_bytes =
    ap (λ (p : Prog (Unit {0})). run reader_os p w) (ReaderLoop.round-refines x more opened)
    ∙ ap after take_take
    ∙ by_bytes (take 26 w.fifo) (take-ne-nil w.fifo some_bytes)
  where
    after : Bytes → Outcome (Unit {0}) × World
    after bytes =
        run reader_os (ReaderLoop.after_read_message opened (ok bytes))
          (record w { fifo = drop 26 w.fifo })

    take_take : take 26 (take 26 w.fifo) ≡ take 26 w.fifo
    take_take = take_of_le 26 (take 26 w.fifo) (omega (arith, length-take 26 w.fifo))

    take-ne-nil : (l : Bytes) → l ≢ [] → take 26 l ≢ []
    take-ne-nil [] h e = h refl
    take-ne-nil (b ∷ l) h e = cc

    by_bytes :
        (bytes : Bytes)
        → bytes ≢ []
        → after bytes ≡ (running tt, delivered (route bytes) (record w { fifo = drop 26 w.fifo }))
    by_bytes [] h = absurd (h refl)
    by_bytes (b ∷ bs) h = run-deliver (b ∷ bs) (record w { fifo = drop 26 w.fifo })

-- The handler of SIGUSR1 and SIGUSR2, with a byte to spare behind its array.
pub run-handler :
    (x : ℕ) (more : Bytes) (sig : Signal) (w : World)
    → run writer_os (Writer.sigusr_handler (x ∷ more) 3 sig) w
      ≡ (running tt, record w { fifo = w.fifo ++ sign_frame sig })
unfolding run
run-handler x more sig w =
    ap (λ (p : Prog (Unit {0})). run writer_os p w)
      (WriterRefine.sigusr_handler-refines x more 3 sig)
