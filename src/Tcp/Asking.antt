-- ===== src/Tcp/Asking.antt =====
-- material-clases/clase5/getaddr/cliente_tcp.c and clase6/practica_resolviendo/cliente_tcp.c, which differ in
-- how they find the address and in the ends of their texts: what both do behind `connect`.
use cese_sopg_github_io.Common.{ℕ, zero, suc, Option, none, some, String, [], ◌∷◌, ◌++◌, take}
use cese_sopg_github_io.Memory.{Bytes, c_string, strlen, copy_at}
use cese_sopg_github_io.Posix.{str, Ret, fail, ok, Prog, lift, ◌>>=◌, ◌>>◌}
use cese_sopg_github_io.Posix.Sys.{fgets, read, write, printf}
use cese_sopg_github_io.Tcp.Client.{refuse, leave}

-- The texts of one of the two programs.
pub record Texts : Type 0 where
  pub connect_error : String
  pub prompt : String
  pub send_error : String
  pub answer_format : String

module _ (texts : Texts) where
  -- The answer comes over the message, without a NUL behind it.
  abbrev pub on_answer : Bytes → ℕ → Ret Bytes → Prog (Unit {0})
  on_answer buf s (fail e) = leave s
  on_answer buf s (ok []) = leave s
  on_answer buf s (ok (b ∷ bytes)) = do
    buf' ← lift (copy_at buf 0 (b ∷ bytes))
    text ← lift (c_string buf')
    printf texts.answer_format (str text ∷ [])
    leave s

  -- `n <= 0` ends the program.
  abbrev pub on_sent : Bytes → ℕ → Ret ℕ → Prog (Unit {0})
  on_sent buf s (fail e) = refuse s texts.send_error
  on_sent buf s (ok zero) = refuse s texts.send_error
  on_sent buf s (ok (suc n)) = do answer ← read s 128; on_answer buf s answer

  -- From `printf("envio:%s", buf)` on.
  unfoldable pub send_message : Bytes → ℕ → Prog (Unit {0})
  send_message buf s = do
    text ← lift (c_string buf)
    printf "envio:%s" (str text ∷ [])
    n ← lift (strlen buf)
    ret ← write s (take n buf)
    on_sent buf s ret

  -- Where `fgets` gives NULL the array stays as it is.
  abbrev pub on_line : Bytes → ℕ → Option Bytes → Prog (Unit {0})
  on_line buf s none = send_message buf s
  on_line buf s (some line) = do buf' ← lift (copy_at buf 0 (line ++ (0 ∷ []))); send_message buf' s

  abbrev pub on_connected : Bytes → ℕ → Ret ℕ → Prog (Unit {0})
  on_connected buf s (fail e) = refuse s texts.connect_error
  on_connected buf s (ok r) = do printf texts.prompt []; line ← fgets 128; on_line buf s line
