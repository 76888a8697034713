-- ===== src/TpCorregido/Writer/Messages.antt =====
-- material-clases/TP_Corregido/writer.c: the arrays `aux` and `aux_handler` against the frames of
-- Protocol.
use cese_sopg_github_io.Common.{
  ℕ, ◌-◌, ◌≤◌, ◌≡◌, refl, ◌∙◌, none, some, [], ◌∷◌, ◌++◌, length, take, arith, take-append_of_le,
  take_of_le,
}
use cese_sopg_github_io.Memory.{
  Bytes, codes, zeros, c_string, store, copy_at, strcat, copy_at-zeros, strcat-zeros,
  c_string-store, length-zeros,
}
use cese_sopg_github_io.Posix.{Signal, sigusr1}
use cese_sopg_github_io.TpCorregido.Protocol.{cut, payload, data_frame, sign_frame, length-payload}
use cese_sopg_github_io.TpCorregido.Writer.Buffers.{
  data_message, sign_message, end_index, data_header,
}

take-end_index : (bytes : Bytes) → take (end_index (length bytes)) bytes ≡ cut bytes
take-end_index bytes = ground (arith, take_of_le (length bytes) bytes)

module _ (rest : Bytes) where
  header-aux : strcat (zeros 27 rest) data_header ≡ some (codes "DATA: " ++ zeros 21 rest)
  unfolding c_string
  header-aux = strcat-zeros [] 27 rest data_header (codes "DATA: ") refl refl (omega arith)

  -- Any input of at most 20 bytes is put together without an access outside an array, and the
  -- result holds the frame of its payload.
  pub data_message_lem :
      (bytes : Bytes)
      → length bytes ≤ 20
      → data_message rest bytes
        ≡ some (data_frame (payload bytes) ++ zeros (21 - length (payload bytes)) rest)
  unfolding data_message
  data_message_lem bytes h =
      let (msg', stored, text) = terminated in
      rw (
        copy_at-zeros [] bytes 21 rest (omega arith),
        stored,
        header-aux,
        strcat-zeros (codes "DATA: ") 21 rest msg' (payload bytes) refl text
            (omega (arith, length-payload bytes h)),
      )
    where
      msg : Bytes
      msg = bytes ++ zeros (21 - length bytes) rest

      end-le : end_index (length bytes) ≤ length bytes
      end-le = ground arith

      take-msg : take (end_index (length bytes)) msg ≡ cut bytes
      take-msg =
          take-append_of_le (end_index (length bytes)) bytes (zeros (21 - length bytes) rest) end-le
          ∙ take-end_index bytes

      terminated :
          (msg' : Bytes) × (store msg (end_index (length bytes)) 0 ≡ some msg')
          × (c_string msg' ≡ some (payload bytes))
      terminated = rw (← take-msg) (
          c_string-store msg (end_index (length bytes))
            (omega (arith, end-le, length-zeros bytes (21 - length bytes) rest)))

-- With one byte of memory behind `aux_handler`, the handler's message is the frame.
pub sign_message-room :
    (x : ℕ) (more : Bytes) (sig : Signal)
    → sign_message (x ∷ more) sig ≡ some (sign_frame sig ++ (0 ∷ more))
unfolding sign_message strcat c_string copy_at
sign_message-room x more sigusr1 = ground arith
sign_message-room x more _ = ground arith

-- Without it, the NUL of the handler's message lies outside `aux_handler`, for every signal.
pub sign_message-overflow : (sig : Signal) → sign_message [] sig ≡ none
unfolding sign_message strcat c_string copy_at
sign_message-overflow sigusr1 = refl
sign_message-overflow _ = refl
