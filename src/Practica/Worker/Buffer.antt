-- ===== src/Practica/Worker/Buffer.antt =====
-- material-clases/clase6/practica_resolviendo/server_tcp.c: the array that procesar_cliente reads into.
use cese_sopg_github_io.Common.{
  ◌<◌, ◌≡◌, refl, none, some, Option, ◌++◌, length, drop, arith, take-append_length,
}
use cese_sopg_github_io.Memory.{
  Bytes, c_string, store, copy_at, until_nul, c_string-store, copy_at-start, length-start,
  store-overflow, ◌>>=◌,
}

-- The bytes that `read` brought are in `buffer`; `buffer[n] = 0`, and what `%s` then prints.
unfoldable pub text_read : Bytes → Bytes → Option Bytes
text_read buffer bytes = do
  filled ← copy_at buffer 0 bytes
  ended ← store filled (length bytes) 0
  c_string ended

abbrev filled : Bytes → Bytes → Bytes
filled buffer bytes = bytes ++ drop (length bytes) buffer

-- A message of fewer bytes than the array is shown up to its first NUL.
pub text_read-shown :
    (buffer bytes : Bytes)
    → length bytes < length buffer
    → text_read buffer bytes ≡ some (until_nul bytes)
unfolding text_read
text_read-shown buffer bytes h =
    let (ended, stored, shown) =
      c_string-store (filled buffer bytes) (length bytes)
        (omega (arith, length-start buffer bytes)) in
    rw (
      copy_at-start buffer bytes (omega arith),
      stored,
      shown,
      take-append_length (length bytes) bytes (drop (length bytes) buffer) refl,
    )

-- A message that fills the array leaves no place for the NUL.
pub text_read-overflow :
    (buffer bytes : Bytes) → length bytes ≡ length buffer → text_read buffer bytes ≡ none
unfolding text_read
text_read-overflow buffer bytes h = rw (
  copy_at-start buffer bytes (omega arith),
  store-overflow (filled buffer bytes) (length bytes) 0 (omega (arith, length-start buffer bytes)),
)
