-- ===== src/TpCorregido/Writer/Buffers.antt =====
-- The char arrays of material-clases/TP_Corregido/writer.c: the messages that are put together in
-- them. `none` is an access outside an array; `rest` is what lies in memory behind each array.
use cese_sopg_github_io.Common.{ℕ, ◌-◌, Option, [], ◌∷◌, ◌++◌, if◌then◌else◌, ltb, length}
use cese_sopg_github_io.Memory.{Bytes, codes, ◌>>=◌, zeros, store, copy_at, strcat}
use cese_sopg_github_io.Posix.{Signal, sigusr1}

abbrev pub fifo_msg_size : ℕ
fifo_msg_size = 21

abbrev pub fifo_msg_to_send_size : ℕ
fifo_msg_to_send_size = 27

abbrev pub fifo_sign_to_send_size : ℕ
fifo_sign_to_send_size = 7

-- The literals, each with its NULs and what follows them.
abbrev pub sign_header : Bytes
sign_header = codes "SIGN: " ++ (0 ∷ 0 ∷ [])

abbrev pub sign_usr1 : Bytes
sign_usr1 = codes "1" ++ (0 ∷ 0 ∷ [])

abbrev pub sign_usr2 : Bytes
sign_usr2 = codes "2" ++ (0 ∷ 0 ∷ [])

abbrev pub data_header : Bytes
data_header = codes "DATA: " ++ (0 ∷ b'}' ∷ 0 ∷ [])

-- `if ((FIFO_MSG_SIZE - 1) > ret) ret--;`, run only at `ret > 0`.
abbrev pub end_index : ℕ → ℕ
end_index ret = if ltb ret (fifo_msg_size - 1) then ret - 1 else ret

-- What the C string of a signal's number is: every signal but SIGUSR1 counts as SIGUSR2.
abbrev pub sign_text : Signal → Bytes
sign_text sigusr1 = sign_usr1
sign_text _ = sign_usr2

module _ (rest : Bytes) where
  -- `msg` filled by `read` and cut, then put behind the header in `aux`.
  unfoldable pub data_message : Bytes → Option Bytes
  data_message bytes = do
    msg ← copy_at (zeros fifo_msg_size rest) 0 bytes
    msg' ← store msg (end_index (length bytes)) 0
    aux ← strcat (zeros fifo_msg_to_send_size rest) data_header
    strcat aux msg'

  -- `aux_handler`
  unfoldable pub sign_message : Signal → Option Bytes
  sign_message sig = do
    aux_handler ← strcat (zeros fifo_sign_to_send_size rest) sign_header
    strcat aux_handler (sign_text sig)
