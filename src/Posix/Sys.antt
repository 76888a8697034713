-- ===== src/Posix/Sys.antt =====
-- The system calls as programs of one call each.
use cese_sopg_github_io.Common.{ℕ, ◌-◌, ◌^◌, Bool, if◌then◌else◌, Option, List, take, String}
use mathlib.Core.Option
use cese_sopg_github_io.Memory.{Bytes, codes}
use cese_sopg_github_io.Posix.Defs.{
  Signal, Handler, Arg, num, str, NodeType, OpenFlags, MqMode, Ret, fail, ok, Call, Prog, done,
  call, exit, exit_failure, ◌>>◌,
}

abbrev pub getpid : Prog ℕ
getpid = call Call.getpid (λ r. done r)

abbrev pub printf : String → List Arg → Prog (Unit {0})
printf format args = call (Call.printf format args) (λ r. done tt)

abbrev pub perror : String → Prog (Unit {0})
perror s = call (Call.perror s) (λ r. done tt)

abbrev pub mknod : String → NodeType → Prog (Ret ℕ)
mknod path node = call (Call.mknod path node) (λ r. done r)

abbrev pub open_file : String → OpenFlags → Prog (Ret ℕ)
open_file path flags = call (Call.open_file path flags) (λ r. done r)

abbrev pub close : ℕ → Prog (Ret ℕ)
close fd = call (Call.close fd) (λ r. done r)

abbrev pub sigaction : Signal → Handler → Prog (Ret ℕ)
sigaction sig h = call (Call.sigaction sig h) (λ r. done r)

abbrev pub clip : ℕ → Ret Bytes → Ret Bytes
clip n (fail e) = fail e
clip n (ok bs) = ok (take n bs)

-- The kernel gives at most `count` bytes.
abbrev pub read : ℕ → ℕ → Prog (Ret Bytes)
read fd count = call (Call.read fd count) (λ r. done (clip count r))

abbrev pub write : ℕ → Bytes → Prog (Ret ℕ)
write fd bs = call (Call.write fd bs) (λ r. done r)

abbrev pub accept : ℕ → Prog (Ret ℕ)
accept fd = call (Call.accept fd) (λ r. done r)

abbrev pub mq_open : Bytes → MqMode → Prog (Ret ℕ)
mq_open name mode = call (Call.mq_open name mode) (λ r. done r)

abbrev pub mq_receive : Ret ℕ → ℕ → Prog (Ret Bytes)
mq_receive qd count = call (Call.mq_receive qd count) (λ r. done (clip count r))

abbrev pub mq_send : Ret ℕ → Bytes → Prog (Ret ℕ)
mq_send qd bs = call (Call.mq_send qd bs) (λ r. done r)

abbrev pub mq_close : Ret ℕ → Prog (Ret ℕ)
mq_close qd = call (Call.mq_close qd) (λ r. done r)

abbrev pub mq_unlink : Bytes → Prog (Ret ℕ)
mq_unlink name = call (Call.mq_unlink name) (λ r. done r)

abbrev pub socket : Prog (Ret ℕ)
socket = call Call.socket (λ r. done r)

abbrev pub bind : ℕ → Prog (Ret ℕ)
bind fd = call (Call.bind fd) (λ r. done r)

abbrev pub listen : ℕ → ℕ → Prog (Ret ℕ)
listen fd backlog = call (Call.listen fd backlog) (λ r. done r)

abbrev pub connect : ℕ → Prog (Ret ℕ)
connect fd = call (Call.connect fd) (λ r. done r)

abbrev pub recv : ℕ → ℕ → Prog (Ret Bytes)
recv fd count = call (Call.recv fd count) (λ r. done (clip count r))

abbrev pub send : ℕ → Bytes → Prog (Ret ℕ)
send fd bs = call (Call.send fd bs) (λ r. done r)

-- One message, of which what is behind `count` bytes is lost.
abbrev pub recvfrom : ℕ → ℕ → Prog (Ret Bytes)
recvfrom fd count = call (Call.recvfrom fd count) (λ r. done (clip count r))

abbrev pub sendto : ℕ → Bytes → Prog (Ret ℕ)
sendto fd bs = call (Call.sendto fd bs) (λ r. done r)

abbrev pub sleep : ℕ → Prog ℕ
sleep seconds = call (Call.sleep seconds) (λ r. done r)

abbrev pub unlink : String → Prog (Ret ℕ)
unlink path = call (Call.unlink path) (λ r. done r)

-- What `fgets` stores before its NUL: fewer bytes than `size`.
abbrev pub fgets : ℕ → Prog (Option Bytes)
fgets size = call (Call.fgets size) (λ r. done (Option.map (take (size - 1)) r))

abbrev pub feof : Prog Bool
feof = call Call.feof (λ r. done r)

abbrev pub sem_init : ℕ → Prog (Ret ℕ)
sem_init value = call (Call.sem_init value) (λ r. done r)

abbrev pub sem_post : Prog (Ret ℕ)
sem_post = call Call.sem_post (λ r. done r)

-- Until the time `deadline`, in seconds.
abbrev pub sem_timedwait : ℕ → Prog (Ret ℕ)
sem_timedwait deadline = call (Call.sem_timedwait deadline) (λ r. done r)

abbrev pub alarm : ℕ → Prog (Ret ℕ)
alarm seconds = call (Call.alarm seconds) (λ r. done r)

-- CLOCK_REALTIME, in seconds.
abbrev pub clock_gettime : Prog (Ret ℕ)
clock_gettime = call Call.clock_gettime (λ r. done r)

-- A file whose name an argument of the program gives.
abbrev pub open_path : Bytes → OpenFlags → Prog (Ret ℕ)
open_path path flags = call (Call.open_path path flags) (λ r. done r)

abbrev pub fstat : ℕ → Prog (Ret ℕ)
fstat fd = call (Call.fstat fd) (λ r. done r)

abbrev pub mmap : ℕ → ℕ → Prog (Ret Bytes)
mmap fd size = call (Call.mmap fd size) (λ r. done r)

abbrev pub msync : Bytes → Prog (Ret ℕ)
msync data_bytes = call (Call.msync data_bytes) (λ r. done r)

abbrev pub munmap : Bytes → Prog (Ret ℕ)
munmap data_bytes = call (Call.munmap data_bytes) (λ r. done r)

-- `waitpid(-1, NULL, WNOHANG)`
abbrev pub waitpid_any : Prog (Ret ℕ)
waitpid_any = call Call.waitpid_any (λ r. done r)

abbrev pub pause : Prog (Ret ℕ)
pause = call Call.pause (λ r. done r)

abbrev pub fork : Prog (Ret ℕ)
fork = call Call.fork (λ r. done r)

-- `wait(NULL)`
abbrev pub wait : Prog (Ret ℕ)
wait = call Call.wait (λ r. done r)

-- The end of a process that its parent waits for.
abbrev pub exit_group : ℕ → Prog (Unit {0})
exit_group status = call (Call.exit_group status) (λ r. exit status)

-- WRITE_STDOUT: the result of `write` is not looked at.
abbrev pub write_stdout : String → Prog (Unit {0})
write_stdout s = call (Call.write 1 (codes s)) (λ r. done tt)

-- `perror(msg); exit(EXIT_FAILURE);` under a test
abbrev pub die_if : Bool → String → Prog (Unit {0})
die_if b msg = if b then (perror msg >> exit exit_failure) else done tt

-- -1 as the bits of an `int`
abbrev minus_one : ℕ
minus_one = 2 ^ 32 - 1

-- The result of a call as a descriptor, where the program does not look whether it is -1.
abbrev pub fd_of : Ret ℕ → ℕ
fd_of (fail e) = minus_one
fd_of (ok fd) = fd

-- What `%d` prints of a result.
abbrev pub count_of : Ret ℕ → Arg
count_of (fail e) = str (codes "-1")
count_of (ok n) = num n

-- `fprintf(stderr, …)` of a text without arguments
abbrev pub print_error : String → Prog (Unit {0})
print_error s = call (Call.write 2 (codes s)) (λ r. done tt)
