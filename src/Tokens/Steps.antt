-- ===== src/Tokens/Steps.antt =====
-- material-clases/clase7/ejemplo-msq/server.c: what one pass of the loop does with its arrays.
use cese_sopg_github_io.Common.{ℕ, ◌<◌, ◌≡◌, refl, [], length, arith}
use cese_sopg_github_io.Memory.{Bytes, until_nul}
pub use cese_sopg_github_io.Memory.Strings.{
  nul, written, length-nul, copy_at-written, length-written, c_string-written, strlen-written,
  take-written,
}
use cese_sopg_github_io.Posix.{open_wronly, Ret, ok, ◌>>=◌, ◌>>◌}
use cese_sopg_github_io.Posix.Sys.{printf, mq_open, mq_send}
use cese_sopg_github_io.Tokens.Text.{decimal, length-decimal, until_nul-decimal}
use cese_sopg_github_io.Tokens.{
  Locals, msg_buffer_size, on_received, on_opened, on_sent, send_token,
}

-- The arrays have their lengths.
pub record HasRoom (s : Locals) : Type 0 where
  pub in_room : length s.in_buffer ≡ msg_buffer_size
  pub out_room : length s.out_buffer ≡ msg_buffer_size

-- The name of a queue, short enough for a message.
abbrev pub IsName : Bytes → Type 0
IsName name = (until_nul name ≡ name) × (length name < 256)

abbrev pub with_out : Locals → Locals
with_out s = record s { out_buffer = written s.out_buffer (decimal s.token_number) }

abbrev pub with_in : Locals → Bytes → Locals
with_in s name = record s { in_buffer = written s.in_buffer name }

pub send_token_lem :
    (s : Locals) (qd : Ret ℕ)
    → HasRoom s
    → send_token s qd ≡ (mq_send qd (nul (decimal s.token_number)) >>= on_sent (with_out s) qd)
send_token_lem s qd room =
    rw
      (
        copy_at-written s.out_buffer (decimal s.token_number)
            (omega (arith, length-decimal s.token_number, room.out_room)),
        strlen-written s.out_buffer (decimal s.token_number) (until_nul-decimal s.token_number),
        take-written s.out_buffer (decimal s.token_number),
      )
      refl

pub on_received_lem :
    (s : Locals) (name : Bytes)
    → HasRoom s
    → IsName name
    → on_received s (ok (nul name)) ≡ (
        printf "Server: message received.\n" []
        >> mq_open name open_wronly
        >>= on_opened (with_in s name))
on_received_lem s name room (clean, short) =
    rw
      (
        copy_at-written s.in_buffer name (omega (arith, room.in_room)),
        c_string-written s.in_buffer name clean,
      )
      refl
