-- ===== src/Tcp/Serve.antt =====
-- material-clases/clase5/tcp/server_tcp.c: what the clients get.
use cese_sopg_github_io.Common.{
  ℕ, suc, ◌+◌, ◌≤◌, ◌<◌, ◌≡◌, refl, ap, sym, ◌∙◌, List, [], ◌∷◌, ◌++◌, length, append_assoc,
  append-nil, replicate, arith, take, take_of_le, length-take,
}
use cese_sopg_github_io.Memory.{Bytes, until_nul}
use cese_sopg_github_io.Posix.{
  ok, fault, num, str, ◌>>=◌, ◌>>◌, running, crashed, run, resume, run->>=,
}
use cese_sopg_github_io.Posix.Sys.{write, printf}
use cese_sopg_github_io.Tcp.Buffer.{ended_at-fits, ended_at-overflow}
use cese_sopg_github_io.Tcp.Kernel.{World, tcp_os}
use cese_sopg_github_io.Tcp.{chau, on_read, on_answered, round, loop}

-- The clients that wait, and what has been done for those before.
abbrev pub clients_with : List Bytes → List Bytes → ℕ → World
clients_with ms answers closed = record {
  clients = ms;
  unread = [];
  answers = answers;
  closed = closed;
}

pub on_read_text :
    (buffer bytes : Bytes) (fd : ℕ)
    → length bytes < length buffer
    → (buffer' : Bytes) × (on_read buffer fd (ok bytes) ≡ (
        printf "server: recibi %d bytes:%s\n" (num (length bytes) ∷ str (until_nul bytes) ∷ [])
        >> write fd chau
        >>= on_answered buffer' fd))
on_read_text buffer bytes fd h =
    let (buffer', ended, shown) = ended_at-fits buffer bytes h in (buffer', rw (ended, shown) refl)

run-on_read :
    (buffer bytes : Bytes) (ms answers : List Bytes) (closed : ℕ)
    → length bytes < length buffer
    → run tcp_os (on_read buffer 4 (ok bytes)) (clients_with ms answers closed)
      ≡ (running tt, clients_with ms (answers ++ (chau ∷ [])) (closed + 1))
unfolding run
run-on_read buffer bytes ms answers closed h =
    let (buffer', same) = on_read_text buffer bytes 4 h in
    ap (λ p. run tcp_os p (clients_with ms answers closed)) same

-- Messages that leave a byte of the array for the NUL.
abbrev pub ShortMessages : List Bytes → Type 0
ShortMessages [] = Unit
ShortMessages (m ∷ ms) = (length m ≤ 127) × ShortMessages ms

module _ (peer : ℕ → Bytes) (s : ℕ) where
  run-round :
      (buffer m : Bytes) (ms answers : List Bytes) (closed : ℕ)
      → length buffer ≡ 128
      → length m ≤ 127
      → run tcp_os (round peer buffer s) (clients_with (m ∷ ms) answers closed)
        ≡ (running tt, clients_with ms (answers ++ (chau ∷ [])) (closed + 1))
  unfolding run round
  run-round buffer m ms answers closed len short =
      ap (λ bytes. run tcp_os (on_read buffer 4 (ok bytes)) (clients_with ms answers closed))
        (take_of_le 128 m (omega arith))
      ∙ run-on_read buffer m ms answers closed (omega arith)

  -- If each client sends at most 127 bytes and closes its connection when it is answered, then, whatever the
  -- arrays of 128 bytes hold and whatever the addresses are, as many passes of the server as there
  -- are clients answer each with "chau" and its NUL and close each connection.
  loop-answers :
      (buffers : ℕ → Bytes) (ms answers : List Bytes) (closed : ℕ)
      → ((i : ℕ) → length (buffers i) ≡ 128)
      → ShortMessages ms
      → run tcp_os (loop peer (length ms) buffers s) (clients_with ms answers closed)
        ≡ (running tt, clients_with [] (answers ++ replicate (length ms) chau) (closed + length ms))
  unfolding run loop
  loop-answers buffers [] answers closed len h =
      let e : closed ≡ closed + 0 = omega arith in
      ap (λ a. (running tt, clients_with [] a closed)) (sym (append-nil answers))
      ∙ ap (λ c. (running tt, clients_with [] (answers ++ []) c)) e
  loop-answers buffers (m ∷ ms) answers closed len h =
      let e : (closed + 1) + length ms ≡ closed + suc (length ms) = omega arith in
      run->>= tcp_os (round peer (buffers (length ms)) s) (λ _. loop peer (length ms) buffers s)
        (clients_with (m ∷ ms) answers closed)
      ∙ ap (resume tcp_os (λ _. loop peer (length ms) buffers s))
          (run-round (buffers (length ms)) m ms answers closed (len (length ms)) h.0)
      ∙ loop-answers buffers ms (answers ++ (chau ∷ [])) (closed + 1) len h.1
      ∙ ap (λ a. (running tt, clients_with [] a ((closed + 1) + length ms)))
          (append_assoc answers (chau ∷ []) (replicate (length ms) chau))
      ∙ ap (λ c. (running tt, clients_with [] (answers ++ (chau ∷ replicate (length ms) chau)) c)) e

  -- A client that sends 128 bytes or more makes the pass write behind its array of 128 bytes, if nothing lies
  -- there.
  round-overflow :
      (buffer m : Bytes) (ms answers : List Bytes) (closed : ℕ)
      → length buffer ≡ 128
      → 128 ≤ length m
      → run tcp_os (round peer buffer s) (clients_with (m ∷ ms) answers closed)
        ≡ (crashed, clients_with ms answers closed)
  unfolding run round
  round-overflow buffer m ms answers closed len long =
      ap (λ p. run tcp_os p (clients_with ms answers closed)) faults
    where
      faults : on_read buffer 4 (ok (take 128 m)) ≡ fault
      faults = rw (ended_at-overflow buffer (take 128 m) (omega (arith, length-take 128 m))) refl
