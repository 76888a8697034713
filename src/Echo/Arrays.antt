-- ===== src/Echo/Arrays.antt =====
-- material-clases/clase5/unix: the arrays of 100 bytes of the two programs.
use cese_sopg_github_io.Common.{
  ℕ, ◌-◌, ◌≤◌, ◌<◌, ◌≡◌, refl, ap, some, [], ◌∷◌, ◌++◌, length, take, arith,
}
use mathlib.Core.Option
use cese_sopg_github_io.Memory.{
  Bytes, zeros, until_nul, c_string, strlen, store, copy_at, copy_at-zeros, store-zero,
  store-overflow, c_string-zeros, length-zeros, nul-zeros, length-nul,
}
use cese_sopg_github_io.Posix.{num, str, done, fault, ◌>>=◌, ◌>>◌}
use cese_sopg_github_io.Posix.Sys.{printf, send}
use cese_sopg_github_io.Echo.Server.{echo, or_return, inside}
use cese_sopg_github_io.Echo.Client.{show, send_line}

take-until_nul : (bs r : Bytes) → take (length (until_nul bs)) (bs ++ r) ≡ until_nul bs
take-until_nul [] r = refl
take-until_nul (b ∷ bs) r = ground (arith, take-until_nul bs r)

module _ (rest : Bytes) where
  -- The array with what was received.
  abbrev array : Bytes → Bytes
  array bytes = bytes ++ zeros (100 - length bytes) rest

  received-array :
      (bytes : Bytes) → length bytes ≤ 100 → copy_at (zeros 100 rest) 0 bytes ≡ some (array bytes)
  received-array bytes h = copy_at-zeros [] bytes 100 rest h

  ended-array :
      (bytes : Bytes)
      → length bytes < 100
      → store (array bytes) (length bytes) 0 ≡ some (array bytes)
  ended-array bytes h =
      store-zero bytes (100 - length bytes) (length bytes) rest (omega arith) (omega arith)

  c_string-array :
      (bytes : Bytes) → length bytes < 100 → c_string (array bytes) ≡ some (until_nul bytes)
  c_string-array bytes h = c_string-zeros bytes (100 - length bytes) rest (omega arith)

  strlen-array :
      (bytes : Bytes) → length bytes < 100 → strlen (array bytes) ≡ some (length (until_nul bytes))
  unfolding strlen
  strlen-array bytes h = ap (Option.map length) (c_string-array bytes h)

  -- The server sends back what comes before the first NUL.
  pub echo-text :
      (conn : ℕ) (bytes : Bytes)
      → length bytes < 100
      → echo rest conn bytes ≡ (
          printf "received %d bytes from client: %s\n"
            (num (length bytes) ∷ str (until_nul bytes) ∷ [])
          >> send conn (until_nul bytes)
          >>= λ sent. or_return sent "send" >>= λ _. done (inside conn))
  unfolding echo
  echo-text conn bytes h =
      rw
        (
          received-array bytes (omega arith),
          ended-array bytes h,
          c_string-array bytes h,
          strlen-array bytes h,
          take-until_nul bytes (zeros (100 - length bytes) rest),
        )
        refl

  pub show-text :
      (bytes : Bytes)
      → length bytes < 100
      → show rest bytes
        ≡ printf "received %d bytes from server: %s\n"
            (num (length bytes) ∷ str (until_nul bytes) ∷ [])
  unfolding show
  show-text bytes h =
      rw (received-array bytes (omega arith), ended-array bytes h, c_string-array bytes h) refl

  pub send_line-text :
      (sock : ℕ) (line : Bytes)
      → length line < 100
      → send_line rest sock line ≡ send sock (until_nul line)
  unfolding send_line
  send_line-text sock line h =
      rw
        (
          copy_at-zeros [] (line ++ (0 ∷ [])) 100 rest (omega (arith, length-nul line)),
          nul-zeros line 100 rest h,
          strlen-array line h,
          take-until_nul line (zeros (100 - length line) rest),
        )
        refl

-- A message that fills the array leaves no place for the NUL that the server stores behind it.
echo-overflow : (conn : ℕ) (bytes : Bytes) → length bytes ≡ 100 → echo [] conn bytes ≡ fault
unfolding echo
echo-overflow conn bytes full =
    rw
      (
        received-array [] bytes (omega arith),
        store-overflow (array [] bytes) (length bytes) 0
            (omega (arith, length-zeros bytes (100 - length bytes) [])),
      )
      refl
