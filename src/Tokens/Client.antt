-- ===== src/Tokens/Client.antt =====
-- material-clases/clase7/ejemplo-msq/client.c.
use cese_sopg_github_io.Common.{
  ℕ, zero, suc, ◌+◌, Option, none, some, String, [], ◌∷◌, ◌++◌, ◌++◌, take,
}
use cese_sopg_github_io.Memory.{Bytes, codes, c_string, strlen, copy_at}
use cese_sopg_github_io.Posix.{
  create_rdonly, open_wronly, str, Ret, fail, ok, Prog, done, exit, lift, ◌>>=◌, ◌>>◌,
}
use cese_sopg_github_io.Posix.Sys.{
  getpid, printf, perror, fgets, mq_open, mq_send, mq_receive, mq_close, mq_unlink,
}
use cese_sopg_github_io.Tokens.{server_queue_name, max_messages, max_msg_size, msg_buffer_size}
use cese_sopg_github_io.Tokens.Text.{decimal}

-- `perror(msg); exit(1);` where a call gave -1
abbrev pub or_exit : Ret ℕ → String → Prog ℕ
or_exit (fail e) msg = perror msg >> exit 1
or_exit (ok r) msg = done r

-- The queues of `main`, by the name of its own, and the array of the answers.
pub record Locals : Type 0 where
  pub client_queue_name : Bytes
  pub qd_client : ℕ
  pub qd_server : ℕ
  pub in_buffer : Bytes

-- The queues, with the name of the client's own in its array.
abbrev pub on_made : Bytes → Bytes → Ret ℕ → Prog Locals
on_made client_queue_name in_buffer made = do
  qd_client ← or_exit made "Client: mq_open (client)"
  opened ← mq_open server_queue_name open_wronly
  qd_server ← or_exit opened "Client: mq_open (server)"
  printf "Ask for a token (Press <ENTER>): " []
  done (record {
    client_queue_name = client_queue_name;
    qd_client = qd_client;
    qd_server = qd_server;
    in_buffer = in_buffer;
  })

-- `sprintf(client_queue_name, "/sp-example-client-%d", getpid())`, and the queue of that name
abbrev pub on_pid : Bytes → Bytes → ℕ → Prog Locals
on_pid name_buffer in_buffer pid = do
  client_queue_name ←
      lift (copy_at name_buffer 0 (codes "/sp-example-client-" ++ (decimal pid ++ (0 ∷ []))))
  name ← lift (c_string client_queue_name)
  made ← mq_open name (create_rdonly max_messages max_msg_size)
  on_made client_queue_name in_buffer made

-- `main` up to its loop, by the arrays, which are not initialised.
unfoldable pub setup : Bytes → Bytes → Prog Locals
setup name_buffer in_buffer = getpid >>= on_pid name_buffer in_buffer

abbrev pub unlink_queue : Locals → Prog (Unit {0})
unlink_queue s = do
  name ← lift (c_string s.client_queue_name)
  unlinked ← mq_unlink name
  _ ← or_exit unlinked "Client: mq_unlink"
  printf "Client: bye\n" []
  exit 0

-- Behind the loop.
unfoldable pub leave : Locals → Prog (Unit {0})
leave s = do
  closed ← mq_close (ok s.qd_client)
  _ ← or_exit closed "Client: mq_close"
  unlink_queue s

abbrev pub on_answer : Locals → Ret Bytes → Prog Locals
on_answer s (fail e) = perror "Client: mq_receive" >> exit 1
on_answer s (ok bytes) = do
  in_buffer ← lift (copy_at s.in_buffer 0 bytes)
  token ← lift (c_string in_buffer)
  printf "Client: Token received from server: %s\n\n" (str token ∷ [])
  printf "Ask for a token (Press <ENTER>): " []
  done (record s { in_buffer = in_buffer })

-- `continue` where the message could not be sent.
abbrev pub on_asked : Locals → Ret ℕ → Prog Locals
on_asked s (fail e) = perror "Client: Not able to send message to server" >> done s
on_asked s (ok r) = do answer ← mq_receive (ok s.qd_client) msg_buffer_size; on_answer s answer

-- The name goes with its NUL.
unfoldable pub ask : Locals → Prog Locals
ask s = do
  n ← lift (strlen s.client_queue_name)
  sent ← mq_send (ok s.qd_server) (take (n + 1) s.client_queue_name)
  on_asked s sent

abbrev pub on_line : Locals → Option Bytes → Prog Locals
on_line s none = leave s >> done s
on_line s (some line) = ask s

-- One pass of the loop; the end of the input leads out of it, to the end of the program.
unfoldable pub round : Locals → Prog Locals
round s = do line ← fgets 10; on_line s line

-- The first `n` passes; `done` means that the loop goes on.
unfoldable pub loop : ℕ → Locals → Prog (Unit {0})
loop zero s = done tt
loop (suc n) s = do s' ← round s; loop n s'

unfoldable pub main : ℕ → Bytes → Bytes → Prog (Unit {0})
main n name_buffer in_buffer = do s ← setup name_buffer in_buffer; loop n s
