-- ===== src/Tokens.antt =====
-- material-clases/clase7/ejemplo-msq/server.c: the server that gives out token numbers over message queues.
pub mod Text
pub mod Kernel
pub mod Steps
pub mod Given
pub mod Client
pub mod Pair
mod Tests
use cese_sopg_github_io.Common.{
  ℕ, zero, suc, ◌+◌, ◌^◌, Bool, true, false, [], ◌∷◌, ◌++◌, if◌then◌else◌, ltb, ◌==◌, take,
}
use cese_sopg_github_io.Memory.{Bytes, codes, c_string, strlen, copy_at}
use cese_sopg_github_io.Posix.{
  open_wronly, create_rdonly, Ret, fail, ok, Prog, done, exit, fault, lift, ◌>>=◌, ◌>>◌,
}
use cese_sopg_github_io.Posix.Sys.{printf, perror, mq_open, mq_receive, mq_send, mq_close}
use Text.{decimal}

abbrev pub server_queue_name : Bytes
server_queue_name = codes "/sp-example-server"

abbrev pub max_messages : ℕ
max_messages = 10

abbrev pub max_msg_size : ℕ
max_msg_size = 256

abbrev pub msg_buffer_size : ℕ
msg_buffer_size = max_msg_size + 10

-- The locals of `main` that live through the loop.
pub record Locals : Type 0 where
  pub in_buffer : Bytes
  pub out_buffer : Bytes
  pub token_number : ℕ

-- `qd_client == 1`, which is meant to be a test for -1.
abbrev pub is_one : Ret ℕ → Bool
is_one (fail e) = false
is_one (ok qd) = qd == 1

-- `token_number++` on a `long`
abbrev pub increment : ℕ → Prog ℕ
increment t = if ltb (t + 1) (2 ^ 63) then done (t + 1) else fault

abbrev pub on_closed : Locals → Ret ℕ → Prog Locals
on_closed s (fail e) = perror "mq_close" >> done s
on_closed s (ok r) = do
  printf "Server: response sent to client.\n" []
  t ← increment s.token_number
  done (record s { token_number = t })

abbrev pub on_sent : Locals → Ret ℕ → Ret ℕ → Prog Locals
on_sent s qd_client (fail e) = perror "Server: Not able to send message to client" >> done s
on_sent s qd_client (ok r) = do ret ← mq_close qd_client; on_closed s ret

-- The token is printed into `out_buffer` and sent with its NUL.
abbrev pub send_token : Locals → Ret ℕ → Prog Locals
send_token s qd_client = do
  out_buffer ← lift (copy_at s.out_buffer 0 (decimal s.token_number ++ (0 ∷ [])))
  len ← lift (strlen out_buffer)
  ret ← mq_send qd_client (take (len + 1) out_buffer)
  on_sent (record s { out_buffer = out_buffer }) qd_client ret

abbrev pub on_opened : Locals → Ret ℕ → Prog Locals
on_opened s qd_client =
    if is_one qd_client
    then (perror "Server: Not able to open client queue" >> done s)
    else send_token s qd_client

abbrev pub on_received : Locals → Ret Bytes → Prog Locals
on_received s (fail e) = perror "Server: mq_receive" >> exit 1
on_received s (ok bytes) = do
  in_buffer ← lift (copy_at s.in_buffer 0 bytes)
  printf "Server: message received.\n" []
  name ← lift (c_string in_buffer)
  qd_client ← mq_open name open_wronly
  on_opened (record s { in_buffer = in_buffer }) qd_client

-- One pass of `while (1)`; a `continue` ends it with the locals as they are.
unfoldable pub round : Ret ℕ → Locals → Prog Locals
round qd_server s = do ret ← mq_receive qd_server msg_buffer_size; on_received s ret

-- The first `n` passes; `done` means that the loop goes on.
unfoldable pub loop : ℕ → Ret ℕ → Locals → Prog Locals
loop zero qd_server s = done s
loop (suc n) qd_server s = do s' ← round qd_server s; loop n qd_server s'

abbrev pub on_server_opened : ℕ → Bytes → Bytes → Ret ℕ → Prog Locals
on_server_opened n in_buffer out_buffer (fail e) = perror "Server: mq_open (server)" >> exit 1
on_server_opened n in_buffer out_buffer (ok qd) =
    loop n (ok qd) (record { in_buffer = in_buffer; out_buffer = out_buffer; token_number = 1 })

-- `main`, by the number of passes and the arrays, which are not initialised.
unfoldable pub main : ℕ → Bytes → Bytes → Prog Locals
main n in_buffer out_buffer = do
  printf "Server: Hello, World!\n" []
  ret ← mq_open server_queue_name (create_rdonly max_messages max_msg_size)
  on_server_opened n in_buffer out_buffer ret
