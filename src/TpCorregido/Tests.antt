-- ===== src/TpCorregido/Tests.antt =====
-- The programs on concrete inputs, and the theorems at inputs that meet their hypotheses.
use cese_sopg_github_io.Common.{◌+◌, Option, none, some, ◌≡◌, refl, List, [], ◌∷◌, ◌++◌, arith, map}
use cese_sopg_github_io.Memory.{
  Bytes, codes, c_string, strlen, store, copy_at, strcpy, strcat, strncmp_eq,
}
use cese_sopg_github_io.Posix.{
  Call, call, num, str, fault, Signal, run_interrupted, sigusr1, sigusr2, running, exited, run,
  ◌>>=◌,
}
use cese_sopg_github_io.Posix.Sys.{write}
use cese_sopg_github_io.Processes.{Ends}
use cese_sopg_github_io.TpCorregido.Together.Kernels.{writer_side, reader_side}
use cese_sopg_github_io.TpCorregido.Together.EveryOrder.{
  AllWritten, logs, unopened, every_order-AllWritten,
}
use cese_sopg_github_io.TpCorregido.Interrupted.{
  Sent, all_frames, texts, UserMarks, marks, deliveries, handler,
}
use cese_sopg_github_io.TpCorregido.Interrupted.Whole.{interrupted_loop-whole}
use cese_sopg_github_io.TpCorregido.Protocol.{payload, data_frame, route}
use cese_sopg_github_io.TpCorregido.Kernel.{World, File, writer_os, reader_os, opened}
use cese_sopg_github_io.TpCorregido.Writer
use cese_sopg_github_io.TpCorregido.Reader
use cese_sopg_github_io.TpCorregido.Writer.Buffers.{data_message, sign_message}
use cese_sopg_github_io.TpCorregido.Reader.Buffers.{text_line, has_header, without_newline}
use cese_sopg_github_io.TpCorregido.Writer.Refine.{
  loop_text, writer_main-refines, sigusr_handler-overflow, sigusr_handler-refines,
}
use cese_sopg_github_io.TpCorregido.Reader.Refine.{on_message-overflow}
use cese_sopg_github_io.TpCorregido.Reader.Loop.{loop_message, reader_main-refines}
use cese_sopg_github_io.TpCorregido.Link.Lockstep.{quiet}
use cese_sopg_github_io.TpCorregido.Link.Backlog.{waiting, log_texts, round-merges}
use cese_sopg_github_io.TpCorregido.Link.Ends.{reader_main-ends}
use cese_sopg_github_io.TpCorregido.Link.Pipeline.{writer_reader-ends}
use cese_sopg_github_io.TpCorregido.Link.Split.{pieces, joined, typed, long_line}

abbrev empty_file : File
empty_file = record { content = []; position = 0 }

abbrev start : List Bytes → World
start lines = quiet lines empty_file empty_file

abbrev hola : Bytes
hola = codes "hola\n"

-- Twenty letters.
abbrev twenty : Bytes
twenty = codes "abcdefghijklmnopqrst"

-- Both programs from their `main`: one line reaches the log.
writer_runs :
    run writer_os (Writer.main [] 1) (start (hola ∷ []))
    ≡ (running tt, record (start []) { fifo = codes "DATA: hola" })
unfolding run Writer.main Writer.setup Writer.loop Writer.round Writer.on_input data_message strcat
    c_string copy_at store strlen
writer_runs = refl

reader_runs :
    run reader_os (Reader.main (7 ∷ []) 1) (record (start []) { fifo = codes "DATA: hola" })
    ≡ (running tt, record (start []) { log = record { content = hola; position = 5 } })
unfolding run Reader.main Reader.setup Reader.loop Reader.round Reader.on_message
    Reader.check_and_write_msg Reader.write_text text_line has_header without_newline strcpy
    strncmp_eq c_string copy_at store strlen
reader_runs = refl

-- The end of the input ends the Writer with success.
writer_eof : (run writer_os (Writer.main [] 1) (start [])).0 ≡ exited 0
unfolding run Writer.main Writer.setup Writer.loop Writer.round
writer_eof = refl

writer_main-refines_example : Writer.main [] 3 ≡ (Writer.setup >>= loop_text 3)
writer_main-refines_example = writer_main-refines [] 3

reader_main-refines_example : Reader.main (7 ∷ []) 3 ≡ (Reader.setup >>= loop_message 3)
reader_main-refines_example = reader_main-refines 7 [] 3

on_message-overflow_example :
    Reader.on_message [] opened (data_frame twenty)
    ≡ call
        (Call.printf "-->>Reader: %ld bytes read in FIFO_NAME: \"%s\"\n"
          (num 26 ∷ str (data_frame twenty) ∷ []))
        (λ _. fault)
unfolding route
on_message-overflow_example =
    on_message-overflow opened (data_frame twenty) (omega arith) (omega arith)

sigusr_handler-overflow_example : Writer.sigusr_handler [] 3 sigusr1 ≡ fault
sigusr_handler-overflow_example = sigusr_handler-overflow 3 sigusr1

sigusr_handler-refines_example :
    Writer.sigusr_handler (7 ∷ []) 3 sigusr2
    ≡ (write 3 (codes "SIGN: 2") >>= Writer.on_signal_written)
sigusr_handler-refines_example = sigusr_handler-refines 7 [] 3 sigusr2

-- A signal that comes before the Reader has read the text is lost in the line of the text.
round-merges_example :
    run reader_os
      (Reader.round (7 ∷ []) opened)
      (waiting (codes "DATA: holaSIGN: 1") [] empty_file empty_file)
    ≡ (running tt, quiet [] (record { content = codes "holaSIGN: 1\n"; position = 12 }) empty_file)
round-merges_example =
    round-merges 7 [] (codes "hola") (codes "SIGN: 1") [] empty_file empty_file refl (omega arith)

-- 25 letters and the newline go out in two pieces.
abbrev letters : Bytes
letters = twenty ++ codes "uvwxy"

long_line_example :
    (run writer_os (Writer.loop [] 2 3) (waiting [] (typed letters ∷ []) empty_file empty_file) ≡ (
      running tt,
      waiting (codes "DATA: abcdefghijklmnopqrstDATA: uvwxy") [] empty_file empty_file,
    ))
    × (joined (map payload (pieces 2 (typed letters))) ≡ letters)
long_line_example = long_line [] [] empty_file empty_file 2 letters [] refl (omega arith)

-- The two messages reach the Reader as one.
reader_main-ends_example :
    run reader_os
      (Reader.main (7 ∷ []) 2)
      (waiting (codes "DATA: holaDATA: chau") [] empty_file empty_file)
    ≡ (exited 0, quiet [] (record { content = codes "holaDATA: chau\n"; position = 15 }) empty_file)
unfolding route
reader_main-ends_example =
    reader_main-ends 7 [] [] 1 (codes "DATA: holaDATA: chau") empty_file empty_file (omega arith)

writer_reader-ends_example :
    ((run writer_os (Writer.main [] 3) (waiting [] (twenty ∷ twenty ∷ []) empty_file empty_file)).0
      ≡ exited 0)
    × (run reader_os
          (Reader.main (7 ∷ []) 3)
          (run writer_os
            (Writer.main [] 3)
            (waiting [] (twenty ∷ twenty ∷ []) empty_file empty_file)).1
        ≡ (exited 0, quiet [] (log_texts empty_file (twenty ∷ twenty ∷ [])) empty_file))
writer_reader-ends_example =
    writer_reader-ends 7 [] empty_file empty_file [] (twenty ∷ twenty ∷ [])
      (refl, refl, (refl, refl, tt)) (omega arith)

-- Both programs at once.
every_order-AllWritten_example :
    Ends writer_side reader_side
      (AllWritten (log_texts empty_file (twenty ∷ twenty ∷ [])) empty_file)
      (Writer.main [] 3)
      (twenty ∷ twenty ∷ [])
      (Reader.main (7 ∷ []) 3)
      (logs empty_file empty_file)
      unopened
every_order-AllWritten_example =
    every_order-AllWritten 7 [] [] (twenty ∷ twenty ∷ []) empty_file empty_file
      (refl, refl, (refl, refl, tt))

-- SIGUSR1 comes before the `write` of the first text, SIGUSR2 while its handler runs, and SIGUSR1 again after
-- the programs have ended.
abbrev schedule : List (Option Signal)
schedule =
    none ∷ some sigusr1 ∷ some sigusr2 ∷ none ∷ none ∷ none ∷ none ∷ none ∷ none ∷ some sigusr1 ∷ []

interrupted_runs :
    run_interrupted writer_os
      (handler (7 ∷ []))
      schedule
      (Writer.loop [] 1 3)
      (waiting [] (hola ∷ []) empty_file empty_file)
    ≡ (
      running tt,
      waiting (codes "SIGN: 2SIGN: 1DATA: hola") [] empty_file empty_file,
      some sigusr1 ∷ [],
    )
unfolding run_interrupted run Writer.loop Writer.round Writer.on_input Writer.sigusr_handler
    data_message sign_message strcat c_string copy_at store strlen
interrupted_runs = refl

interrupted_loop-whole_example :
    (sent : List Sent) × (left : List (Option Signal)) × (run_interrupted writer_os
        (handler (7 ∷ []))
        schedule
        (Writer.loop [] 1 3)
        (waiting [] (hola ∷ []) empty_file empty_file)
      ≡ (running tt, waiting (all_frames sent) [] empty_file empty_file, left))
    × UserMarks sent
    × (texts sent ≡ codes "hola" ∷ [])
    × ((sig : Signal) → marks sig sent + deliveries sig left ≡ deliveries sig schedule)
interrupted_loop-whole_example =
    interrupted_loop-whole [] 7 [] empty_file empty_file schedule [] (hola ∷ []) tt
      ((cc), omega arith, tt)
