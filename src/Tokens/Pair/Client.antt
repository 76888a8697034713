-- ===== src/Tokens/Pair/Client.antt =====
-- material-clases/clase7/ejemplo-msq/client.c: what the parts of `main` do with its arrays.
use cese_sopg_github_io.Common.{
  ℕ, ◌≤◌, ◌≡◌, refl, ap, ◌∙◌, [], ◌∷◌, ◌++◌, length, arith, length-append, take_of_le,
}
use cese_sopg_github_io.Memory.{Bytes, codes, until_nul-append}
use cese_sopg_github_io.Posix.{create_rdonly, str, ok, done, exit, ◌>>=◌, ◌>>◌, clip}
use cese_sopg_github_io.Posix.Sys.{printf, mq_open, mq_send, mq_unlink}
use cese_sopg_github_io.Tokens.Text.{decimal, length-decimal, until_nul-decimal}
use cese_sopg_github_io.Tokens.Steps.{
  nul, written, length-nul, copy_at-written, c_string-written, strlen-written, take-written, IsName,
}
use cese_sopg_github_io.Tokens.Client.{
  Locals, or_exit, on_pid, on_made, unlink_queue, on_answer, ask, on_asked,
}

-- The name of the client's queue.
abbrev pub name_of : ℕ → Bytes
name_of pid = codes "/sp-example-client-" ++ decimal pid

length-name_of : (pid : ℕ) → length (name_of pid) ≤ 39
length-name_of pid =
    omega (arith, length-append (codes "/sp-example-client-") (decimal pid), length-decimal pid)

pub name_of-IsName : (pid : ℕ) → IsName (name_of pid)
name_of-IsName pid = (
  until_nul-append (codes "/sp-example-client-") (decimal pid) refl
      ∙ ap (λ t. codes "/sp-example-client-" ++ t) (until_nul-decimal pid),
  omega (arith, length-name_of pid),
)

-- The locals in the loop.
abbrev pub locals : Bytes → ℕ → Bytes → Locals
locals name_buffer pid in_buffer = record {
  client_queue_name = written name_buffer (name_of pid);
  qd_client = 3;
  qd_server = 4;
  in_buffer = in_buffer;
}

module _ (name_buffer : Bytes) (pid : ℕ) where
  pub on_pid-name :
      (in_buffer : Bytes)
      → length name_buffer ≡ 64
      → on_pid name_buffer in_buffer pid ≡ (
          mq_open (name_of pid) (create_rdonly 10 256)
          >>= on_made (written name_buffer (name_of pid)) in_buffer)
  on_pid-name in_buffer room =
      rw
        (
          copy_at-written name_buffer (name_of pid) (omega (arith, length-name_of pid)),
          c_string-written name_buffer (name_of pid) (name_of-IsName pid).0,
        )
        refl

  pub ask-name :
      (in_buffer : Bytes)
      → ask (locals name_buffer pid in_buffer)
        ≡ (mq_send (ok 4) (nul (name_of pid)) >>= on_asked (locals name_buffer pid in_buffer))
  unfolding ask
  ask-name in_buffer =
      rw
        (
          strlen-written name_buffer (name_of pid) (name_of-IsName pid).0,
          take-written name_buffer (name_of pid),
        )
        refl

  pub unlink_queue-name :
      (in_buffer : Bytes)
      → unlink_queue (locals name_buffer pid in_buffer) ≡ (
          mq_unlink (name_of pid) >>= λ unlinked.
          or_exit unlinked "Client: mq_unlink" >>= λ r. printf "Client: bye\n" [] >> exit 0)
  unlink_queue-name in_buffer =
      rw (c_string-written name_buffer (name_of pid) (name_of-IsName pid).0) refl

  pub on_answer-token :
      (in_buffer : Bytes) (t : ℕ)
      → length in_buffer ≡ 266
      → on_answer (locals name_buffer pid in_buffer) (clip 266 (ok (nul (decimal t)))) ≡ (
          printf "Client: Token received from server: %s\n\n" (str (decimal t) ∷ [])
          >> printf "Ask for a token (Press <ENTER>): " []
          >> done (locals name_buffer pid (written in_buffer (decimal t))))
  on_answer-token in_buffer t room =
      ap (λ bytes. on_answer (locals name_buffer pid in_buffer) (ok bytes))
        (take_of_le 266 (nul (decimal t)) (omega (arith, length-nul (decimal t), length-decimal t)))
      ∙ rw
          (
            copy_at-written in_buffer (decimal t) (omega (arith, length-decimal t)),
            c_string-written in_buffer (decimal t) (until_nul-decimal t),
          )
          refl
