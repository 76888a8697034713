-- ===== src/Posix/Defs.antt =====
-- System calls, their answers, and programs as trees over them.
use cese_sopg_github_io.Common.{ℕ, Bool, true, false, Option, none, some, List, String}
use cese_sopg_github_io.Memory.{Bytes}

pub data Signal : Type 0 where
  sigint sigpipe sigusr1 sigusr2 sigalrm sigchld other_signal : Signal

-- The functions that the programs install as handlers.
pub data Handler : Type 0 where
  sig_handler sigusr_handler alarm_handler child_handler : Handler

-- An argument of `printf`: what `%d` or `%ld` prints, or the bytes that `%s` prints.
pub data Arg : Type 0 where
  num : ℕ → Arg
  str : Bytes → Arg

-- `S_IFIFO | 0666` and `S_IFREG | 0666`
pub data NodeType : Type 0 where
  fifo_node regular_node : NodeType

pub data OpenFlags : Type 0 where
  rdonly wronly rdwr : OpenFlags

-- What a call returns: -1 with `errno` set, or its result.
pub data Ret (A : Type 0) : Type 0 where
  fail : (errno : ℕ) → Ret A
  ok : A → Ret A

-- How a message queue is opened: created for reading, with the most messages and the longest message
-- that it holds, or for writing.
pub data MqMode : Type 0 where
  create_rdonly : (mq_maxmsg mq_msgsize : ℕ) → MqMode
  open_wronly : MqMode

-- A queue descriptor is what `mq_open` returned, -1 included.
pub data Call : Type 0 where
  getpid : Call
  printf : String → List Arg → Call
  perror : String → Call
  mknod : String → NodeType → Call
  open_file : String → OpenFlags → Call
  close : ℕ → Call
  read : (fd count : ℕ) → Call
  write : (fd : ℕ) → Bytes → Call
  sigaction : Signal → Handler → Call
  accept : (fd : ℕ) → Call
  mq_open : Bytes → MqMode → Call
  mq_receive : (qd : Ret ℕ) (count : ℕ) → Call
  mq_send : (qd : Ret ℕ) → Bytes → Call
  mq_close : (qd : Ret ℕ) → Call
  mq_unlink : Bytes → Call
  socket : Call
  bind : (fd : ℕ) → Call
  listen : (fd backlog : ℕ) → Call
  connect : (fd : ℕ) → Call
  recv : (fd count : ℕ) → Call
  send : (fd : ℕ) → Bytes → Call
  unlink : String → Call
  fgets : (size : ℕ) → Call
  feof : Call
  sem_init : (value : ℕ) → Call
  sem_post : Call
  sem_timedwait : (deadline : ℕ) → Call
  alarm : (seconds : ℕ) → Call
  clock_gettime : Call
  exit_group : (status : ℕ) → Call
  wait : Call
  waitpid_any : Call
  pause : Call
  fork : Call
  open_path : Bytes → OpenFlags → Call
  fstat : (fd : ℕ) → Call
  mmap : (fd size : ℕ) → Call
  msync : Bytes → Call
  munmap : Bytes → Call
  sleep : (seconds : ℕ) → Call
  recvfrom : (fd count : ℕ) → Call
  sendto : (fd : ℕ) → Bytes → Call

-- The type of a call's answer. `fstat` answers with the size of the file and `mmap` with the bytes that it
-- maps, which `msync` and `munmap` get as the program has left them. `read` answers with the bytes that it puts into the buffer, and `fgets` with
-- those that it puts there before the NUL, if any.
abbrev pub Reply : Call → Type 0
Reply getpid = ℕ
Reply (printf _ _) = Unit {0}
Reply (perror _) = Unit {0}
Reply (read _ _) = Ret Bytes
Reply (mq_receive _ _) = Ret Bytes
Reply (recv _ _) = Ret Bytes
Reply (recvfrom _ _) = Ret Bytes
Reply (sleep _) = ℕ
Reply (mmap _ _) = Ret Bytes
Reply (fgets _) = Option Bytes
Reply feof = Bool
Reply _ = Ret ℕ

abbrev pub enosys : ℕ
enosys = 38

-- What a kernel that has no such call answers.
abbrev pub unsupported : (c : Call) → Reply c
unsupported getpid = 1000
unsupported (printf _ _) = tt
unsupported (perror _) = tt
unsupported (read _ _) = fail enosys
unsupported (mq_receive _ _) = fail enosys
unsupported (recv _ _) = fail enosys
unsupported (recvfrom _ _) = fail enosys
unsupported (sleep _) = 0
unsupported (mmap _ _) = fail enosys
unsupported (fgets _) = none
unsupported feof = true
unsupported _ = fail enosys

-- `fault` is undefined behaviour, such as a write outside an array.
pub data Prog (A : Type 0) : Type 0 where
  done : A → Prog A
  exit : (status : ℕ) → Prog A
  fault : Prog A
  call : (c : Call) → (Reply c → Prog A) → Prog A

infixl 5 ◌>>=◌ ◌>>◌
abbrev pub ◌>>=◌ : {A B : Type 0} → Prog A → (A → Prog B) → Prog B
done a >>= f = f a
exit n >>= f = exit n
fault >>= f = fault
call c k >>= f = call c (λ r. k r >>= f)

abbrev pub ◌>>◌ : {A B : Type 0} → Prog A → Prog B → Prog B
m >> p = m >>= λ _. p

abbrev pub lift : {A : Type 0} → Option A → Prog A
lift none = fault
lift (some a) = done a

abbrev pub eintr : ℕ
eintr = 4

abbrev pub eexist : ℕ
eexist = 17

abbrev pub etimedout : ℕ
etimedout = 110

abbrev pub exit_success : ℕ
exit_success = 0

abbrev pub exit_failure : ℕ
exit_failure = 1

abbrev pub stdin_fileno : ℕ
stdin_fileno = 0

abbrev pub stdout_fileno : ℕ
stdout_fileno = 1

-- `-1 == r`
abbrev pub failed : {A : Type 0} → Ret A → Bool
failed (fail e) = true
failed (ok a) = false

pub data Outcome (A : Type 0) : Type 0 where
  running : A → Outcome A
  exited : ℕ → Outcome A
  crashed : Outcome A

-- A program run on a kernel.
unfoldable pub run : {S A : Type 0} → ((c : Call) → S → Reply c × S) → Prog A → S → Outcome A × S
run os (done a) s = (running a, s)
run os (exit n) s = (exited n, s)
run os fault s = (crashed, s)
run os (call c k) s = let (r, s') = os c s in run os (k r) s'
