-- ===== src/Spool/Unnamed.antt =====
-- material-clases/clase7/ejemplo-sem2/unnamed.c: the program of named.c with semaphores in memory
-- (sem_init) and with buffer_print_index as a global.
pub mod Same
use cese_sopg_github_io.Common.{
  ℕ, zero, suc, ◌+◌, ◌-◌, ◌<◌, ◌≡◌, List, [], ◌∷◌, ◌++◌, none, if◌then◌else◌, ◌==◌, moved,
}
use cese_sopg_github_io.Spool.{Shared, Producer, get_buffer, finished, max_buffers}
use cese_sopg_github_io.Spool as Named

-- The function `producer` has the text it has in named.c.
abbrev pub ProducerMove : ℕ → Shared → Producer → Shared → Producer → Type 0
ProducerMove my_id m p m' p' = Named.ProducerMove my_id m p m' p'

-- Where the spooler stands; it has no local variable.
pub data Spooler : Type 0 where
  wait_signal : Spooler  -- before sem_wait(&spool_signal_sem)
  print : Spooler  -- before printf
  advance : Spooler  -- before buffer_print_index++
  wrap : Spooler  -- before the test against MAX_BUFFERS
  release_buffer : Spooler  -- before sem_post(&buffer_count_sem)
  cancelled : Spooler → Spooler  -- stopped by pthread_cancel where it stood

abbrev pub IsRunning : Spooler → Type 0
IsRunning (cancelled p) = ⊥
IsRunning _ = Unit

-- `if (buffer_print_index == MAX_BUFFERS) buffer_print_index = 0;`
abbrev pub wrapped : ℕ → ℕ
wrapped p = if p == max_buffers then 0 else p

-- A step of the spooler, with `buffer_print_index` before and after it.
pub data SpoolerMove (m : Shared) : ℕ → Spooler → Shared → ℕ → Spooler → Type 0 where
  take_signal :
      {i : ℕ}
      → 0 < m.spool_signal_sem
      → SpoolerMove m i wait_signal (record m { spool_signal_sem = m.spool_signal_sem - 1 }) i print
  print_buffer :
      {i : ℕ} → SpoolerMove m i print (record m { printed = m.printed ++ (m.buf i ∷ []) }) i advance
  increment : {i : ℕ} → SpoolerMove m i advance m (i + 1) wrap
  wrap_index : {i : ℕ} → SpoolerMove m i wrap m (wrapped i) release_buffer
  post_buffer :
      {i : ℕ}
      → SpoolerMove m i release_buffer
          (record m { buffer_count_sem = m.buffer_count_sem + 1 })
          i
          wait_signal

pub record System : Type 0 where
  pub mem : Shared
  pub buffer_print_index : ℕ
  pub producer : ℕ → Producer
  pub spooler : Spooler

-- `main` has joined the `n` producers and read 0 with sem_getvalue: it cancels the spooler.
pub data Step (n : ℕ) (s : System) : System → Type 0 where
  run_producer :
      (i : ℕ) {m : Shared} {p : Producer}
      → i < n
      → ProducerMove i s.mem (s.producer i) m p
      → Step n s (record {
        mem = m;
        buffer_print_index = s.buffer_print_index;
        producer = moved s.producer i p;
        spooler = s.spooler;
      })
  run_spooler :
      {m : Shared} {j : ℕ} {p : Spooler}
      → SpoolerMove s.mem s.buffer_print_index s.spooler m j p
      → Step n s (record { mem = m; buffer_print_index = j; producer = s.producer; spooler = p })
  cancel :
      ((i : ℕ) → i < n → s.producer i ≡ finished)
      → s.mem.spool_signal_sem ≡ 0
      → IsRunning s.spooler
      → Step n s (record s { spooler = cancelled s.spooler })

-- The semaphores as `main` initialises them.
abbrev pub init : System
init = record {
  mem = record {
    mutex_sem = 1;
    buffer_count_sem = max_buffers;
    spool_signal_sem = 0;
    buffer_produce_index = 0;
    buf = λ _. none;
    printed = [];
  };
  buffer_print_index = 0;
  producer = λ _. get_buffer 0;
  spooler = wait_signal;
}

pub data Reach (n : ℕ) : System → Type 0 where
  start : Reach n init
  later : {s t : System} → Reach n s → Step n s t → Reach n t
