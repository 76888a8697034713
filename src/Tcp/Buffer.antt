-- ===== src/Tcp/Buffer.antt =====
-- material-clases/clase5/tcp/server_tcp.c: the array that the server reads into.
use cese_sopg_github_io.Common.{
  ◌<◌, ◌≡◌, refl, ap, ◌∙◌, none, some, Option, ◌++◌, length, drop, set, arith, lt→ltb, length-set,
  take-append_length,
}
use cese_sopg_github_io.Memory.{
  Bytes, c_string, store, copy_at, until_nul, c_string-store, copy_at-start, length-start,
  store-overflow, c_string-set, ◌>>=◌,
}

-- The bytes that `read` brought, in `buffer`, and `buffer[n] = 0x00`.
unfoldable pub ended_at : Bytes → Bytes → Option Bytes
ended_at buffer bytes = do filled ← copy_at buffer 0 bytes; store filled (length bytes) 0

-- A message of fewer bytes than the array becomes a string up to its first NUL.
pub ended_at-fits :
    (buffer bytes : Bytes)
    → length bytes < length buffer
    → (buffer' : Bytes) × (ended_at buffer bytes ≡ some buffer')
      × (c_string buffer' ≡ some (until_nul bytes))
unfolding ended_at
ended_at-fits buffer bytes h =
    let (buffer', stored, shown) =
      c_string-store (bytes ++ drop (length bytes) buffer) (length bytes)
        (omega (arith, length-start buffer bytes)) in
    (
      buffer',
      rw (copy_at-start buffer bytes (omega arith)) stored,
      shown
          ∙ ap (λ s. some (until_nul s))
              (take-append_length (length bytes) bytes (drop (length bytes) buffer) refl),
    )

-- A message that fills the array has its NUL behind it.
pub ended_at-overflow :
    (buffer bytes : Bytes) → length bytes ≡ length buffer → ended_at buffer bytes ≡ none
unfolding ended_at
ended_at-overflow buffer bytes h = rw (
  copy_at-start buffer bytes (omega arith),
  store-overflow (bytes ++ drop (length bytes) buffer) (length bytes) 0
      (omega (arith, length-start buffer bytes)),
)

-- The same, with the length of the array.
pub ended_at-keeps :
    (buffer bytes : Bytes)
    → length bytes < length buffer
    → (buffer' : Bytes) × (ended_at buffer bytes ≡ some buffer')
      × (c_string buffer' ≡ some (until_nul bytes))
      × (length buffer' ≡ length buffer)
unfolding ended_at store
ended_at-keeps buffer bytes h = (
  set (bytes ++ drop (length bytes) buffer) (length bytes) 0,
  rw
      (
        copy_at-start buffer bytes (omega arith),
        lt→ltb (length bytes) (length (bytes ++ drop (length bytes) buffer))
            (omega (arith, length-start buffer bytes)),
      )
      refl,
  c_string-set (bytes ++ drop (length bytes) buffer) (length bytes)
        (omega (arith, length-start buffer bytes))
      ∙ ap (λ s. some (until_nul s))
          (take-append_length (length bytes) bytes (drop (length bytes) buffer) refl),
  length-set (bytes ++ drop (length bytes) buffer) (length bytes) 0
      ∙ length-start buffer bytes (omega arith),
)
