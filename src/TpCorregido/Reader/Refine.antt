-- ===== src/TpCorregido/Reader/Refine.antt =====
-- material-clases/TP_Corregido/reader.c: check_and_write_msg with its arrays against Spec.
use cese_sopg_github_io.Common.{
  ℕ, ◌+◌, ◌-◌, ◌≤◌, ◌<◌, ◌≡◌, refl, ap, true, false, String, some, [], ◌∷◌, ◌++◌, length, drop,
  arith,
}
use cese_sopg_github_io.Memory.{
  Bytes, codes, zeros, until_nul, c_string, strlen, c_string-zeros, copy_at-zeros,
  until_nul-until_nul,
}
use cese_sopg_github_io.Posix.{Call, fault, call-cong, call, num, str}
use cese_sopg_github_io.TpCorregido.Protocol.{
  starts_with, to_log, to_signals, unknown, route, routed_text, Routing, as_data, as_sign,
  as_unknown, routing, length-routed_text,
}
use cese_sopg_github_io.TpCorregido.Spec.{put_line, deliver_to, deliver}
use cese_sopg_github_io.TpCorregido.Reader.{Files, write_text, check_and_write_msg, on_message}
use cese_sopg_github_io.TpCorregido.Reader.Buffers.{data_header, sign_header}
use cese_sopg_github_io.TpCorregido.Reader.Lines.{Room, text_line-Room, text_line-overflow}
use cese_sopg_github_io.TpCorregido.Reader.Headers.{has_header-data, has_header-sign, text_behind}
use cese_sopg_github_io.TpCorregido.Reader.PutLine.{put-line}

-- The text behind a header of 6 bytes, in a message that the array `msg` holds.
abbrev pub text_at_6 : Bytes → Bytes
text_at_6 bytes = until_nul (drop 6 bytes)

module _ (rest header bytes : Bytes) (m : ℕ) (skips : strlen header ≡ some 6) (pos : 0 < m)
    (found : c_string (drop 6 (bytes ++ zeros m rest)) ≡ some (text_at_6 bytes)) where
  clean-text : until_nul (text_at_6 bytes) ≡ text_at_6 bytes
  clean-text = until_nul-until_nul (drop 6 bytes)

  write_text-refines :
      (fd : ℕ) (error report : String)
      → Room rest (text_at_6 bytes)
      → write_text rest fd error report header (bytes ++ zeros m rest)
        ≡ put_line fd error report (text_at_6 bytes)
  unfolding write_text
  write_text-refines fd error report room =
      let (pad, e) =
        text_line-Room rest header (bytes ++ zeros m rest) (text_at_6 bytes) 6 skips found
          clean-text room in
      rw e (put-line (text_at_6 bytes) pad clean-text room.0 fd error report)

  write_text-overflow :
      (fd : ℕ) (error report : String)
      → length (text_at_6 bytes) ≡ 20
      → write_text [] fd error report header (bytes ++ zeros m rest) ≡ fault
  unfolding write_text
  write_text-overflow fd error report long = rw (
      text_line-overflow header (bytes ++ zeros m rest) (text_at_6 bytes) 6 skips found clean-text
        long)

data_skips : strlen data_header ≡ some 6
unfolding strlen c_string
data_skips = refl

sign_skips : strlen sign_header ≡ some 6
unfolding strlen c_string
sign_skips = refl

module _ (f : Files) (bytes : Bytes) (m : ℕ) (pos : 0 < m) where
  check-data :
      (rest : Bytes)
      → starts_with (codes "DATA: ") bytes ≡ true
      → Room rest (text_at_6 bytes)
      → check_and_write_msg rest f (bytes ++ zeros m rest)
        ≡ deliver_to f.log_fd f.sign_fd (to_log (text_at_6 bytes))
  unfolding check_and_write_msg
  check-data rest is_data room =
      rw (has_header-data bytes m rest pos, is_data)
        (write_text-refines rest data_header bytes m data_skips pos
          (text_behind (codes "DATA: ") bytes m rest pos is_data) f.log_fd _ _ room)

  check-sign :
      (rest : Bytes)
      → starts_with (codes "DATA: ") bytes ≡ false
      → starts_with (codes "SIGN: ") bytes ≡ true
      → Room rest (text_at_6 bytes)
      → check_and_write_msg rest f (bytes ++ zeros m rest)
        ≡ deliver_to f.log_fd f.sign_fd (to_signals (text_at_6 bytes))
  unfolding check_and_write_msg
  check-sign rest not_data is_sign room =
      rw (has_header-data bytes m rest pos, not_data, has_header-sign bytes m rest pos, is_sign)
        (write_text-refines rest sign_header bytes m sign_skips pos
          (text_behind (codes "SIGN: ") bytes m rest pos is_sign) f.sign_fd _ _ room)

  check-unknown :
      (rest : Bytes)
      → starts_with (codes "DATA: ") bytes ≡ false
      → starts_with (codes "SIGN: ") bytes ≡ false
      → check_and_write_msg rest f (bytes ++ zeros m rest) ≡ deliver_to f.log_fd f.sign_fd unknown
  unfolding check_and_write_msg
  check-unknown rest not_data not_sign =
      rw (has_header-data bytes m rest pos, not_data, has_header-sign bytes m rest pos, not_sign)

  -- Each message goes where its route says, if the array has room for its text.
  pub check-refines :
      (rest : Bytes)
      → Room rest (routed_text (route bytes))
      → check_and_write_msg rest f (bytes ++ zeros m rest)
        ≡ deliver_to f.log_fd f.sign_fd (route bytes)
  check-refines rest room = by_route (routing bytes)
    where
      by_route :
          Routing bytes
          → check_and_write_msg rest f (bytes ++ zeros m rest)
            ≡ deliver_to f.log_fd f.sign_fd (route bytes)
      by_route (as_data d e) = rw e (check-data rest d (rw e at room))
      by_route (as_sign d s e) = rw e (check-sign rest d s (rw e at room))
      by_route (as_unknown d s e) = rw e (check-unknown rest d s)

  -- With nothing behind the array, a text of 20 bytes is written past its end.
  pub check-overflow :
      length (routed_text (route bytes)) ≡ 20
      → check_and_write_msg [] f (bytes ++ zeros m []) ≡ fault
  unfolding check_and_write_msg
  check-overflow long = by_route (routing bytes)
    where
      by_route : Routing bytes → check_and_write_msg [] f (bytes ++ zeros m []) ≡ fault
      by_route (as_data d e) =
          rw (has_header-data bytes m [] pos, d)
            (write_text-overflow [] data_header bytes m data_skips pos
              (text_behind (codes "DATA: ") bytes m [] pos d) f.log_fd _ _ (rw e at long))
      by_route (as_sign d s e) =
          rw (has_header-data bytes m [] pos, d, has_header-sign bytes m [] pos, s)
            (write_text-overflow [] sign_header bytes m sign_skips pos
              (text_behind (codes "SIGN: ") bytes m [] pos s) f.sign_fd _ _ (rw e at long))
      by_route (as_unknown d s e) =
          let no_text : length (routed_text (route bytes)) ≡ 0 =
            ap (λ r. length (routed_text r)) e in
          absurd (omega arith)

-- If `read` brought at most 26 bytes, and the text behind their header has at most 19 bytes more
-- than there are behind the arrays, the Reader makes the calls of the Reader without arrays: it
-- shows the bytes and puts the text, with a newline, into the file of their header, or says that
-- they have none.
pub on_message-refines :
    (rest : Bytes) (f : Files) (bytes : Bytes)
    → length bytes ≤ 26
    → length (routed_text (route bytes)) ≤ 19 + length rest
    → on_message rest f bytes ≡ deliver f.log_fd f.sign_fd bytes
unfolding on_message
on_message-refines rest f bytes fits room =
    rw
      (
        copy_at-zeros [] bytes 27 rest (omega arith),
        c_string-zeros bytes (27 - length bytes) rest (omega arith),
      )
      (call-cong (Call.printf _ _) (λ _.
        check-refines f bytes (27 - length bytes) (omega arith) rest
          (length-routed_text bytes fits, room)))

-- With nothing behind the arrays, a message of at most 26 bytes whose text has 20 bytes makes the
-- Reader, once it has shown the message, store a zero behind the 22 bytes of `aux`, the array that
-- the line is put together in.
pub on_message-overflow :
    (f : Files) (bytes : Bytes)
    → length bytes ≤ 26
    → length (routed_text (route bytes)) ≡ 20
    → on_message [] f bytes
      ≡ call
          (Call.printf "-->>Reader: %ld bytes read in FIFO_NAME: \"%s\"\n"
            (num (length bytes) ∷ str (until_nul bytes) ∷ []))
          (λ _. fault)
unfolding on_message
on_message-overflow f bytes fits long =
    rw
      (
        copy_at-zeros [] bytes 27 [] (omega arith),
        c_string-zeros bytes (27 - length bytes) [] (omega arith),
      )
      (call-cong (Call.printf _ _)
        (λ _. check-overflow f bytes (27 - length bytes) (omega arith) long))
