-- ===== src/Practica/Worker.antt =====
-- material-clases/clase6/practica_resolviendo/server_tcp.c: procesar_cliente, the calls that a thread makes
-- for its client.
pub mod Buffer
use cese_sopg_github_io.Common.{
  ℕ, ◌≤◌, ◌≡◌, refl, List, [], ◌∷◌, ◌++◌, length, arith, if◌then◌else◌, ltb, lt→ltb, le→ltb, dec_lt,
}
use cese_sopg_github_io.Memory.{Bytes, codes, until_nul}
use cese_sopg_github_io.Posix.{Ret, fail, ok, Prog, done, exit, fault, lift, ◌>>=◌, ◌>>◌, num, str}
use cese_sopg_github_io.Posix.Sys.{read, write, close, printf, perror}
use Buffer.{text_read, text_read-shown, text_read-overflow}

-- "hola" with the NUL that ends it
abbrev pub hola : Bytes
hola = codes "hola" ++ (0 ∷ [])

abbrev pub on_answered : ℕ → Ret ℕ → Prog (Unit {0})
on_answered fd (fail e) = perror "Error escribiendo mensaje en socket" >> exit 1
on_answered fd (ok n) = do _ ← close fd; done tt

unfoldable pub on_read : Bytes → ℕ → Ret Bytes → Prog (Unit {0})
on_read buffer fd (fail e) = perror "Error leyendo mensaje en socket" >> exit 1
on_read buffer fd (ok bytes) = do
  text ← lift (text_read buffer bytes)
  printf "Recibi %d bytes.:%s\n" (num (length bytes) ∷ str text ∷ [])
  ret ← write fd hola
  on_answered fd ret

-- `fd` is `data->fd`; `buffer` is the array, which is not initialised.
unfoldable pub procesar_cliente : Bytes → ℕ → Prog (Unit {0})
procesar_cliente buffer fd = do ret ← read fd 128; on_read buffer fd ret

-- What the thread does with a text: shows it, answers "hola" and closes the connection.
abbrev pub answer : ℕ → ℕ → Bytes → Prog (Unit {0})
answer fd n text =
    printf "Recibi %d bytes.:%s\n" (num n ∷ str text ∷ []) >> write fd hola >>= on_answered fd

-- With an array of 128 bytes and nothing behind it, a message of at most 127 bytes is shown up to
-- its first NUL and answered with "hola" and its NUL before the connection is closed; one of 128
-- bytes has its NUL written behind the array.
pub on_read-lem :
    (buffer : Bytes) (fd : ℕ) (bytes : Bytes)
    → length buffer ≡ 128
    → length bytes ≤ 128
    → on_read buffer fd (ok bytes)
      ≡ (if ltb (length bytes) 128 then answer fd (length bytes) (until_nul bytes) else fault)
unfolding on_read
on_read-lem buffer fd bytes len fits = elim (dec_lt (length bytes) 128) [
  | yes short ↦
      rw (text_read-shown buffer bytes (omega arith), lt→ltb (length bytes) 128 short) refl
  | no full ↦
      rw (text_read-overflow buffer bytes (omega arith), le→ltb (length bytes) 128 (omega arith))
        refl
]
