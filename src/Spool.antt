-- ===== src/Spool.antt =====
-- material-clases/clase7/ejemplo-sem2/named.c: producers and one spooler over a ring of buffers, with
-- three semaphores. A step is one access to a semaphore or to a shared variable by one thread, where a whole
-- buffer counts as one variable, and the threads interleave in any order.
pub mod Weights
pub mod Invariant
pub mod Strings
pub mod Safety
pub mod Progress
pub mod Race
pub mod Unnamed
mod Tests
use cese_sopg_github_io.Common.{
  ℕ, zero, suc, ◌+◌, ◌-◌, ◌<◌, ◌≡◌, ◌≢◌, Option, none, some, List, [], ◌∷◌, ◌++◌, if◌then◌else◌,
  ◌==◌, moved,
}

abbrev pub max_buffers : ℕ
max_buffers = 10

-- The passes of the `for` of a producer.
abbrev pub passes : ℕ
passes = 10

-- "Producer %d: %d\n", by its two numbers
pub record Text : Type 0 where
  pub my_id : ℕ
  pub count : ℕ

-- The semaphores by their values, the globals, and what `printf` has printed so far, oldest first;
-- `none` is a buffer that nothing was written to.
pub record Shared : Type 0 where
  pub mutex_sem : ℕ
  pub buffer_count_sem : ℕ
  pub spool_signal_sem : ℕ
  pub buffer_produce_index : ℕ
  pub buf : ℕ → Option Text
  pub printed : List (Option Text)

-- Where a producer stands in its pass `i`; `count` is `i` when a pass begins, since both grow by
-- one in each. `j` is the local of that name.
pub data Producer : Type 0 where
  get_buffer : (i : ℕ) → Producer  -- before sem_wait(buffer_count_sem)
  get_mutex : (i : ℕ) → Producer  -- before sem_wait(mutex_sem)
  take_index : (i : ℕ) → Producer  -- before j = buffer_produce_index
  load_index : (i j : ℕ) → Producer  -- before the load of buffer_produce_index++
  store_index : (i j k : ℕ) → Producer  -- before its store, with the number `k` loaded
  wrap_index : (i j : ℕ) → Producer  -- before the test against MAX_BUFFERS
  reset_index : (i j : ℕ) → Producer  -- before buffer_produce_index = 0
  release_mutex : (i j : ℕ) → Producer  -- before sem_post(mutex_sem)
  produce : (i j : ℕ) → Producer  -- before sprintf(buf[j], …)
  signal : (i : ℕ) → Producer  -- before sem_post(spool_signal_sem)
  finished : Producer

-- The head of the `for`: the next pass, or the end.
abbrev pub next_pass : ℕ → Producer
next_pass i = if i == passes then finished else get_buffer i

pub data ProducerMove (my_id : ℕ) (m : Shared) : Producer → Shared → Producer → Type 0 where
  wait_buffer :
      {i : ℕ}
      → 0 < m.buffer_count_sem
      → ProducerMove my_id m
          (get_buffer i)
          (record m { buffer_count_sem = m.buffer_count_sem - 1 })
          (get_mutex i)
  wait_mutex :
      {i : ℕ}
      → 0 < m.mutex_sem
      → ProducerMove my_id m (get_mutex i) (record m { mutex_sem = m.mutex_sem - 1 }) (take_index i)
  take : {i : ℕ} → ProducerMove my_id m (take_index i) m (load_index i m.buffer_produce_index)
  load :
      {i j : ℕ} → ProducerMove my_id m (load_index i j) m (store_index i j m.buffer_produce_index)
  increment :
      {i j k : ℕ}
      → ProducerMove my_id m
          (store_index i j k)
          (record m { buffer_produce_index = k + 1 })
          (wrap_index i j)
  at_end :
      {i j : ℕ}
      → m.buffer_produce_index ≡ max_buffers
      → ProducerMove my_id m (wrap_index i j) m (reset_index i j)
  not_at_end :
      {i j : ℕ}
      → m.buffer_produce_index ≢ max_buffers
      → ProducerMove my_id m (wrap_index i j) m (release_mutex i j)
  wrap :
      {i j : ℕ}
      → ProducerMove my_id m
          (reset_index i j)
          (record m { buffer_produce_index = 0 })
          (release_mutex i j)
  post_mutex :
      {i j : ℕ}
      → ProducerMove my_id m
          (release_mutex i j)
          (record m { mutex_sem = m.mutex_sem + 1 })
          (produce i j)
  print_text :
      {i j : ℕ}
      → ProducerMove my_id m
          (produce i j)
          (record m { buf = moved m.buf j (some (record { my_id = my_id; count = i + 1 })) })
          (signal i)
  post_signal :
      {i : ℕ}
      → ProducerMove my_id m
          (signal i)
          (record m { spool_signal_sem = m.spool_signal_sem + 1 })
          (next_pass (i + 1))

-- Where the spooler stands, with its local `buffer_print_index`.
pub data Spooler : Type 0 where
  wait_signal : (index : ℕ) → Spooler  -- before sem_wait(spool_signal_sem)
  print : (index : ℕ) → Spooler  -- before printf
  advance : (index : ℕ) → Spooler  -- before the increment and its test
  release_buffer : (index : ℕ) → Spooler  -- before sem_post(buffer_count_sem)
  cancelled : Spooler → Spooler  -- stopped by pthread_cancel where it stood

-- `buffer_print_index++; if (buffer_print_index == MAX_BUFFERS) buffer_print_index = 0;`
abbrev pub next_index : ℕ → ℕ
next_index p = if p + 1 == max_buffers then 0 else p + 1

abbrev pub IsRunning : Spooler → Type 0
IsRunning (cancelled p) = ⊥
IsRunning _ = Unit

pub data SpoolerMove (m : Shared) : Spooler → Shared → Spooler → Type 0 where
  take_signal :
      {p : ℕ}
      → 0 < m.spool_signal_sem
      → SpoolerMove m
          (wait_signal p)
          (record m { spool_signal_sem = m.spool_signal_sem - 1 })
          (print p)
  print_buffer :
      {p : ℕ}
      → SpoolerMove m (print p) (record m { printed = m.printed ++ (m.buf p ∷ []) }) (advance p)
  next : {p : ℕ} → SpoolerMove m (advance p) m (release_buffer (next_index p))
  post_buffer :
      {p : ℕ}
      → SpoolerMove m
          (release_buffer p)
          (record m { buffer_count_sem = m.buffer_count_sem + 1 })
          (wait_signal p)

pub record System : Type 0 where
  pub mem : Shared
  pub producer : ℕ → Producer
  pub spooler : Spooler

-- `main` has joined the `n` producers and seen `spool_signal_sem` at 0: it cancels the spooler.
pub data Step (n : ℕ) (s : System) : System → Type 0 where
  run_producer :
      (i : ℕ) {m : Shared} {p : Producer}
      → i < n
      → ProducerMove i s.mem (s.producer i) m p
      → Step n s (record { mem = m; producer = moved s.producer i p; spooler = s.spooler })
  run_spooler :
      {m : Shared} {p : Spooler}
      → SpoolerMove s.mem s.spooler m p
      → Step n s (record { mem = m; producer = s.producer; spooler = p })
  cancel :
      ((i : ℕ) → i < n → s.producer i ≡ finished)
      → s.mem.spool_signal_sem ≡ 0
      → IsRunning s.spooler
      → Step n s (record s { spooler = cancelled s.spooler })

-- The semaphores as `main` opens them, where none of their names is in use: sem_open without O_EXCL would leave
-- a semaphore that exists at the value it has. A producer that `main` has not created yet stands at the
-- beginning and does not move.
abbrev pub init : System
init = record {
  mem = record {
    mutex_sem = 1;
    buffer_count_sem = max_buffers;
    spool_signal_sem = 0;
    buffer_produce_index = 0;
    buf = λ _. none;
    printed = [];
  };
  producer = λ _. get_buffer 0;
  spooler = wait_signal 0;
}

pub data Reach (n : ℕ) : System → Type 0 where
  start : Reach n init
  later : {s t : System} → Reach n s → Step n s t → Reach n t
