-- ===== src/Tokens/Kernel.antt =====
-- Message queues under the token server, as POSIX documents them: the queue of requests, oldest first, and
-- the messages that went to the queues of clients.
use cese_sopg_github_io.Common.{
  true, false, ◌≡◌, refl, ==_refl, ◌==◌, ◌&&◌, ℕ, Bool, List, [], ◌∷◌, ◌++◌, if◌then◌else◌,
}
use cese_sopg_github_io.Memory.{Bytes, codes}
use cese_sopg_github_io.Posix.{
  Call, create_rdonly, open_wronly, Reply, unsupported, enosys, Ret, fail, ok,
}

-- A message in the queue of a client, by the queue's name.
pub record Answer : Type 0 where
  pub queue : Bytes
  pub message : Bytes

-- `opened` is the queue that was opened last: the server has one of them open at a time.
pub record World : Type 0 where
  pub requests : List Bytes
  pub opened : Bytes
  pub answers : List Answer

abbrev pub ebadf : ℕ
ebadf = 9

-- Whether two names are the same.
abbrev pub same : Bytes → Bytes → Bool
same [] [] = true
same [] (y ∷ ys) = false
same (x ∷ xs) [] = false
same (x ∷ xs) (y ∷ ys) = elim (x == y) [ true ↦ same xs ys | false ↦ false ]

pub same_refl : (xs : Bytes) → same xs xs ≡ true
same_refl [] = refl
same_refl (x ∷ xs) = rw (same, ==_refl x) (same_refl xs)

-- Whether a descriptor is `fd`.
abbrev pub is_fd : ℕ → Ret ℕ → Bool
is_fd fd (fail e) = false
is_fd fd (ok qd) = qd == fd

abbrev receive : World → Ret Bytes × World
receive w = elim w.requests [ [] ↦ (fail enosys, w) | r ∷ rs ↦ (ok r, record w { requests = rs }) ]

abbrev eacces : ℕ
eacces = 13

-- The server makes its queue, with the descriptor 3. Every queue of a client can be opened, with 4, and takes what
-- it is sent; `closes` says whether `mq_close` succeeds. Where no request waits, `mq_receive` would wait, and the
-- runs below do not come to that.
abbrev pub tokens_os : Bool → (c : Call) → World → Reply c × World
tokens_os closes Call.getpid w = (1002, w)
tokens_os closes (Call.printf format args) w = (tt, w)
tokens_os closes (Call.perror msg) w = (tt, w)
tokens_os closes (Call.mq_open name (create_rdonly most longest)) w =
    (if same name (codes "/sp-example-server") then ok 3 else fail eacces, w)
tokens_os closes (Call.mq_open name open_wronly) w = (ok 4, record w { opened = name })
tokens_os closes (Call.mq_receive qd n) w = if is_fd 3 qd then receive w else (fail ebadf, w)
tokens_os closes (Call.mq_send qd bs) w =
    if is_fd 4 qd
    then (
      ok 0,
      record w { answers = w.answers ++ ((record { queue = w.opened; message = bs }) ∷ []) },
    )
    else (fail ebadf, w)
tokens_os closes (Call.mq_close qd) w = (if closes && is_fd 4 qd then ok 0 else fail ebadf, w)
tokens_os closes c w = (unsupported c, w)
