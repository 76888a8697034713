-- ===== src/TpCorregido/Reader/Buffers.antt =====
-- The char arrays of material-clases/TP_Corregido/reader.c, as in Writer.Buffers.
use cese_sopg_github_io.Common.{
  ℕ, ◌+◌, ◌-◌, ◌%◌, ◌^◌, Bool, Option, none, [], ◌∷◌, ◌++◌, if◌then◌else◌, ◌==◌, drop,
}
use cese_sopg_github_io.Memory.{Bytes, codes, ◌>>=◌, zeros, strlen, store, strcpy, strncmp_eq}

abbrev pub fifo_msg_size : ℕ
fifo_msg_size = 22

abbrev pub fifo_msg_to_send_size : ℕ
fifo_msg_to_send_size = 27

abbrev pub data_header : Bytes
data_header = codes "DATA: " ++ (0 ∷ [])

abbrev pub sign_header : Bytes
sign_header = codes "SIGN: " ++ (0 ∷ [])

-- `(uint8_t)n`
abbrev pub u8 : ℕ → ℕ
u8 n = n % 2 ^ 8

-- `strncmp(msg, header, strlen(header)) == 0`
unfoldable pub has_header : Bytes → Bytes → Option Bool
has_header msg header = do n ← strlen header; strncmp_eq msg header n

-- `aux[(uint8_t)strlen(aux) - 1] = '\0'`; at length 0 the index is -1.
unfoldable pub without_newline : Bytes → Option Bytes
without_newline aux = do n ← strlen aux; if u8 n == 0 then none else store aux (u8 n - 1) 0

-- `aux`: the text behind the header, then a newline. The second length is that of the text with
-- its newline, so the zero goes one place past the one that ends the string already.
unfoldable pub text_line : Bytes → Bytes → Bytes → Option Bytes
text_line rest header msg = do
  n ← strlen header
  aux ← strcpy (zeros fifo_msg_size rest) (drop n msg)
  len ← strlen aux
  aux' ← store aux (u8 len) b'\n'
  len' ← strlen aux'
  store aux' (u8 len' + 1) 0
