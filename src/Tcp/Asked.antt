-- ===== src/Tcp/Asked.antt =====
-- The clients of clase5/getaddr and clase6/practica_resolviendo: what they send of a line and show of an answer.
use cese_sopg_github_io.Common.{
  ℕ, suc, ◌≤◌, ◌≡◌, refl, ap, ◌∙◌, some, List, [], ◌∷◌, length, take, arith,
}
use mathlib.Core.Option
use cese_sopg_github_io.Memory.{Bytes, until_nul}
use cese_sopg_github_io.Memory.Strings.{
  nul, written, copy_at-written, c_string-written, length-written, strlen-written, take-text,
}
use cese_sopg_github_io.Posix.{str, ok, ◌>>=◌, ◌>>◌}
use cese_sopg_github_io.Posix.Sys.{printf, write}
use cese_sopg_github_io.Posix.Terminal.{Shown, take-take_of_le}
use cese_sopg_github_io.Tcp.Client.{leave}
use cese_sopg_github_io.Tcp.Session.{line}
use cese_sopg_github_io.Tcp.Asking.{Texts, on_answer, on_sent, on_line, send_message}

-- What the client shows of a message and the answer to it.
abbrev pub client_shows : Texts → Bytes → Bytes → List Shown
client_shows texts l answer =
    line texts.prompt []
    ∷ line "envio:%s" (str l ∷ [])
    ∷ line texts.answer_format (str answer ∷ [])
    ∷ []

module _ (texts : Texts) (buf l : Bytes) (room : length buf ≡ 128) (short : length l ≤ 127)
    (clean : until_nul l ≡ l) where
  pub client_sends :
      on_line texts buf 3 (Option.map (take 127) (some (take 127 l)))
      ≡ (printf "envio:%s" (str l ∷ []) >> write 3 l >>= on_sent texts (written buf l) 3)
  unfolding send_message
  client_sends =
      ap (λ t. on_line texts buf 3 (some t)) (take-take_of_le 127 l short)
      ∙ rw
          (
            copy_at-written buf l (omega arith),
            c_string-written buf l clean,
            strlen-written buf l clean,
          )
          (ap (λ t. printf "envio:%s" (str l ∷ []) >> write 3 t >>= on_sent texts (written buf l) 3)
            (take-text buf l))

  -- The answer is a text with its NUL.
  pub client_gets :
      (b : ℕ) (text : Bytes)
      → suc (length text) ≤ 127
      → until_nul (b ∷ text) ≡ b ∷ text
      → on_answer texts (written buf l) 3 (ok (nul (b ∷ text)))
        ≡ (printf texts.answer_format (str (b ∷ text) ∷ []) >> leave 3)
  client_gets b text short' clean' =
      rw
        (
          copy_at-written (written buf l) (b ∷ text)
              (omega (arith, length-written buf l (omega arith), room)),
          c_string-written (written buf l) (b ∷ text) clean',
        )
        refl
