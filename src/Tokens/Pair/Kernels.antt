-- ===== src/Tokens/Pair/Kernels.antt =====
-- The kernel as the server and a client see it: the queue of the server, that of the client, and what the
-- client types and shows. `mq_open` finds a queue by its name, and each descriptor stands for one queue. A queue
-- holds at most ten messages: `mq_send` waits while it is full.
use cese_sopg_github_io.Common.{
  ◌-◌, ℕ, Bool, true, false, Option, none, some, List, [], ◌∷◌, ◌++◌, length, if◌then◌else◌, ltb,
  ◌&&◌, ◌||◌, ◌≡◌, refl,
}
use cese_sopg_github_io.Memory.{Bytes}
use cese_sopg_github_io.Posix.{Call, Ret, fail, ok, unsupported, create_rdonly, open_wronly}
use cese_sopg_github_io.Posix.Terminal.{Terminal, show_on, next_line, terminal_rest}
use cese_sopg_github_io.Processes.{Kernel, Inner, with_inner}
use cese_sopg_github_io.Tokens.{server_queue_name}
use cese_sopg_github_io.Tokens.Kernel.{ebadf, same, same_refl, is_fd}

-- The messages in the two queues, oldest first, and the name of the client's, if it exists.
pub record Queues : Type 0 where
  pub requests : List Bytes
  pub answers : List Bytes
  pub client_name : Option Bytes

abbrev enoent : ℕ
enoent = 2

abbrev is_of_client : Option Bytes → Bytes → Bool
is_of_client none name = false
is_of_client (some made) name = same made name

abbrev closed : Bool → Ret ℕ
closed open_one = if open_one then ok 0 else fail ebadf

abbrev pub client_inner : ℕ → Inner Terminal
client_inner pid Call.getpid l = some (pid, l)
client_inner pid (Call.printf format args) l = some (tt, show_on l format args)
client_inner pid (Call.perror msg) l = some (tt, l)
client_inner pid (Call.fgets size) l =
    some (next_line size l.typed, record l { typed = terminal_rest (size - 1) l.typed })
client_inner pid (Call.mq_close qd) l = some (closed (is_fd 3 qd || is_fd 4 qd), l)
client_inner pid c l = none

-- The server's own part is whether it has the queue of the client open, at the descriptor 4.
abbrev pub server_inner : Inner Bool
server_inner (Call.printf format args) l = some (tt, l)
server_inner (Call.perror msg) l = some (tt, l)
server_inner (Call.mq_close qd) l = some (if is_fd 4 qd then (closed l, false) else (fail ebadf, l))
server_inner c l = none

abbrev put :
    {L : Type 0} → (List Bytes → Queues) → L → List Bytes → Bytes → Option (Ret ℕ × L × Queues)
put to l queue bs = if ltb (length queue) 10 then some (ok 0, l, to (queue ++ (bs ∷ []))) else none

abbrev get : {L : Type 0} → (List Bytes → Queues) → L → List Bytes → Option (Ret Bytes × L × Queues)
get to l [] = none
get to l (m ∷ queue) = some (ok m, l, to queue)

abbrev with_requests : Queues → List Bytes → Queues
with_requests m q = record m { requests = q }

abbrev with_answers : Queues → List Bytes → Queues
with_answers m q = record m { answers = q }

-- The client gets 3 for a queue that it makes, 4 for that of the server to write, 5 for that of the server to
-- read and 6 for its own to write. It removes no queue but its own.
abbrev pub client_outer : Kernel Terminal Queues
client_outer (Call.mq_open name (create_rdonly most longest)) l m = some (
    if same name server_queue_name
    then (ok 5, l, m)
    else (ok 3, l, record m { client_name = some name }))
client_outer (Call.mq_open name open_wronly) l m = some (
  if same name server_queue_name
      then ok 4
      else if is_of_client m.client_name name
      then ok 6
      else fail enoent,
  l,
  m,
)
client_outer (Call.mq_send qd bs) l m =
    if is_fd 4 qd
    then put (with_requests m) l m.requests bs
    else if is_fd 6 qd
    then put (with_answers m) l m.answers bs
    else some (fail ebadf, l, m)
client_outer (Call.mq_receive qd n) l m =
    if is_fd 3 qd
    then get (with_answers m) l m.answers
    else if is_fd 5 qd
    then get (with_requests m) l m.requests
    else some (fail ebadf, l, m)
client_outer (Call.mq_unlink name) l m = some (
    if is_of_client m.client_name name
    then (ok 0, l, record m { client_name = none })
    else (fail enoent, l, m))
client_outer c l m = some (unsupported c, l, m)

abbrev opened : Bool → Bool → Queues → Ret ℕ × Bool × Queues
opened true l m = (ok 4, true, m)
opened false l m = (fail enoent, l, m)

-- The server has opened its queue, at the descriptor 3. It opens one queue to write at a time.
abbrev pub server_outer : Kernel Bool Queues
server_outer (Call.mq_open name open_wronly) l m =
    some (opened (is_of_client m.client_name name) l m)
server_outer (Call.mq_send qd bs) l m =
    if is_fd 4 qd && l then put (with_answers m) l m.answers bs else some (fail ebadf, l, m)
server_outer (Call.mq_receive qd n) l m =
    if is_fd 3 qd then get (with_requests m) l m.requests else some (fail ebadf, l, m)
server_outer c l m = some (unsupported c, l, m)

abbrev pub client_side : ℕ → Kernel Terminal Queues
client_side pid = with_inner (client_inner pid) client_outer

abbrev pub server_side : Kernel Bool Queues
server_side = with_inner server_inner server_outer

-- The queue of the client is found by its name, by both.
pub server_outer-opens :
    (name : Bytes) (l : Bool) (requests answers : List Bytes)
    → server_outer
        (Call.mq_open name open_wronly)
        l
        (record { requests = requests; answers = answers; client_name = some name })
      ≡ some
          (ok 4, true, record { requests = requests; answers = answers; client_name = some name })
server_outer-opens name l requests answers = rw (same_refl name) refl

pub client_outer-unlinks :
    (name : Bytes) (l : Terminal) (requests answers : List Bytes)
    → client_outer
        (Call.mq_unlink name)
        l
        (record { requests = requests; answers = answers; client_name = some name })
      ≡ some (ok 0, l, record { requests = requests; answers = answers; client_name = none })
client_outer-unlinks name l requests answers = rw (same_refl name) refl
