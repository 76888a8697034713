-- ===== src/Tokens/Given.antt =====
-- material-clases/clase7/ejemplo-msq/server.c: which numbers the clients get.
use cese_sopg_github_io.Common.{
  ℕ, ◌+◌, ◌^◌, ◌≤◌, ◌<◌, ◌≡◌, refl, ap, sym, ◌∙◌, Bool, true, false, List, [], ◌∷◌, ◌++◌, map,
  append_assoc, append-nil, if◌then◌else◌, length, arith, take_of_le, lt→ltb,
}
use cese_sopg_github_io.Memory.{Bytes}
use cese_sopg_github_io.Posix.{ok, done, ◌>>=◌, running, run, resume, run->>=}
use cese_sopg_github_io.Tokens.Text.{decimal, length-decimal}
use cese_sopg_github_io.Tokens.Kernel.{Answer, World, tokens_os}
use cese_sopg_github_io.Tokens.Steps.{
  nul, HasRoom, IsName, with_in, with_out, send_token_lem, on_received_lem, length-written,
  length-nul,
}
use cese_sopg_github_io.Tokens.{
  Locals, msg_buffer_size, increment, on_received, on_sent, round, loop, main,
}

-- The number after a pass: it grows only if `mq_close` succeeded.
abbrev pub next_token : Bool → ℕ → ℕ
next_token closes t = if closes then t + 1 else t

abbrev pub answer : Bytes → ℕ → Answer
answer name t = record { queue = name; message = nul (decimal t) }

abbrev asked : World → Bytes → List Bytes → World
asked w name rs = record w { requests = nul name ∷ rs }

abbrev answered : World → Bytes → List Bytes → ℕ → World
answered w name rs t = record {
  requests = rs;
  opened = name;
  answers = w.answers ++ (answer name t ∷ []);
}

abbrev pub after : Bool → Locals → Bytes → Locals
after closes s name = record (with_out (with_in s name)) {
  token_number = next_token closes s.token_number;
}

pub increment_lem : (t : ℕ) → t + 1 < 2 ^ 63 → increment t ≡ done (t + 1)
increment_lem t h = rw (lt→ltb (t + 1) (2 ^ 63) h) refl

pub with_in-HasRoom :
    (s : Locals) (name : Bytes) → HasRoom s → IsName name → HasRoom (with_in s name)
with_in-HasRoom s name room (clean, short) = record {
  in_room = length-written s.in_buffer name (omega (arith, room.in_room)) ∙ room.in_room;
  out_room = room.out_room;
}

pub after-HasRoom :
    (closes : Bool) (s : Locals) (name : Bytes)
    → HasRoom s
    → IsName name
    → HasRoom (after closes s name)
after-HasRoom closes s name room is_name = record {
  in_room = (with_in-HasRoom s name room is_name).in_room;
  out_room =
      length-written s.out_buffer (decimal s.token_number)
        (omega (arith, length-decimal s.token_number, room.out_room))
      ∙ room.out_room;
}

run-on_sent :
    (closes : Bool) (s : Locals) (w : World)
    → s.token_number + 1 < 2 ^ 63
    → run (tokens_os closes) (on_sent s (ok 4) (ok 0)) w
      ≡ (running (record s { token_number = next_token closes s.token_number }), w)
unfolding run
run-on_sent true s w h =
    ap (λ p. run (tokens_os true) (p >>= λ t. done (record s { token_number = t })) w)
      (increment_lem s.token_number h)
run-on_sent false s w h = refl

run-round :
    (closes : Bool) (s : Locals) (w : World) (name : Bytes) (rs : List Bytes)
    → HasRoom s
    → IsName name
    → s.token_number + 1 < 2 ^ 63
    → run (tokens_os closes) (round (ok 3) s) (asked w name rs)
      ≡ (running (after closes s name), answered w name rs s.token_number)
unfolding run round
run-round closes s w name rs room is_name h =
    ap (λ r. run (tokens_os closes) (on_received s (ok r)) (record w { requests = rs }))
      (take_of_le 266 (nul name) (omega (arith, length-nul name, is_name.1)))
    ∙ ap (λ p. run (tokens_os closes) p (record w { requests = rs }))
        (on_received_lem s name room is_name)
    ∙ ap (λ p. run (tokens_os closes) p (record w { requests = rs; opened = name }))
        (send_token_lem (with_in s name) (ok 4) (with_in-HasRoom s name room is_name))
    ∙ run-on_sent closes (with_out (with_in s name)) (answered w name rs s.token_number) h

-- What the clients get, the first one `t`.
abbrev given : Bool → ℕ → List Bytes → List Answer
given closes t [] = []
given closes t (n ∷ ns) = answer n t ∷ given closes (next_token closes t) ns

abbrev pub AllNames : List Bytes → Type 0
AllNames [] = Unit
AllNames (n ∷ ns) = IsName n × AllNames ns

-- The server's queue with one request for each client.
abbrev pub asking : List Bytes → List Answer → Bytes → World
asking ns answers o = record { requests = map nul ns; opened = o; answers = answers }

-- The loop has served all requests, and the answers are those given.
abbrev IsServed : Bool → Locals → List Bytes → List Answer → Bytes → Type 0
IsServed closes s ns answers o =
    (s' : Locals) × (o' : Bytes) × (run (tokens_os closes) (loop (length ns) (ok 3) s)
        (asking ns answers o)
      ≡ (running s', asking [] (answers ++ given closes s.token_number ns) o'))

next_token-le : (closes : Bool) (t : ℕ) → next_token closes t ≤ t + 1
next_token-le closes t = ground arith

loop-IsServed :
    (closes : Bool) (ns : List Bytes) (s : Locals) (answers : List Answer) (o : Bytes)
    → HasRoom s
    → AllNames ns
    → s.token_number + length ns < 2 ^ 63
    → IsServed closes s ns answers o
unfolding loop run
loop-IsServed closes [] s answers o room names h =
    (s, o, ap (λ a. (running s, asking [] a o)) (sym (append-nil answers)))
loop-IsServed closes (n ∷ ns) s answers o room names h =
    let (s', o', served) =
      loop-IsServed closes ns (after closes s n) (answers ++ (answer n s.token_number ∷ [])) n
        (after-HasRoom closes s n room names.0) names.1
        (omega (arith, next_token-le closes s.token_number)) in
    (
      s',
      o',
      run->>= (tokens_os closes) (round (ok 3) s) (λ s. loop (length ns) (ok 3) s)
            (asking (n ∷ ns) answers o)
          ∙ ap (resume (tokens_os closes) (λ s. loop (length ns) (ok 3) s))
              (run-round closes s (asking ns answers o) n (map nul ns) room names.0 (omega arith))
          ∙ served
          ∙ ap (λ a. (running s', asking [] a o'))
              (append_assoc answers (answer n s.token_number ∷ [])
                (given closes (next_token closes s.token_number) ns)),
    )

-- Consecutive numbers, one for each client.
abbrev pub numbered : ℕ → List Bytes → List Answer
numbered t [] = []
numbered t (n ∷ ns) = answer n t ∷ numbered (t + 1) ns

given-closes : (t : ℕ) (ns : List Bytes) → given true t ns ≡ numbered t ns
given-closes t [] = refl
given-closes t (n ∷ ns) = ap (λ l. answer n t ∷ l) (given-closes (t + 1) ns)

given-fails : (t : ℕ) (ns : List Bytes) → given false t ns ≡ map (λ n. answer n t) ns
given-fails t [] = refl
given-fails t (n ∷ ns) = ap (λ l. answer n t ∷ l) (given-fails t ns)

abbrev first_locals : Bytes → Bytes → Locals
first_locals a b = record { in_buffer = a; out_buffer = b; token_number = 1 }

main-IsServed :
    (closes : Bool) (ns : List Bytes) (a b o : Bytes)
    → length a ≡ msg_buffer_size
    → length b ≡ msg_buffer_size
    → AllNames ns
    → length ns + 1 < 2 ^ 63
    → IsServed closes (first_locals a b) ns [] o
main-IsServed closes ns a b o in_room out_room names h =
    loop-IsServed closes ns (first_locals a b) [] o
      (record { in_room = in_room; out_room = out_room }) names (omega arith)

-- With queues that open, take their message and close, with arrays of their lengths, whatever they
-- hold, and with client names of at most 255 bytes without a NUL, fewer than 2^63 - 1 of them, the
-- server answers the requests that wait in their order: the first client gets 1, and each next
-- client the next number, in decimal and with a NUL.
pub main-numbered :
    (ns : List Bytes) (a b o : Bytes)
    → length a ≡ msg_buffer_size
    → length b ≡ msg_buffer_size
    → AllNames ns
    → length ns + 1 < 2 ^ 63
    → (s' : Locals) × (o' : Bytes) × (run (tokens_os true) (main (length ns) a b) (asking ns [] o)
        ≡ (running s', asking [] (numbered 1 ns) o'))
unfolding run main
main-numbered ns a b o in_room out_room names h =
    let (s', o', served) = main-IsServed true ns a b o in_room out_room names h in
    (s', o', served ∙ ap (λ l. (running s', asking [] l o')) (given-closes 1 ns))

-- With queues that open and take their message, and `mq_close` failing each time, with arrays of
-- their lengths and client names of at most 255 bytes without a NUL, fewer than 2^63 - 1 of them,
-- the number is not counted on although each answer was sent: all clients get 1.
pub main-repeated :
    (ns : List Bytes) (a b o : Bytes)
    → length a ≡ msg_buffer_size
    → length b ≡ msg_buffer_size
    → AllNames ns
    → length ns + 1 < 2 ^ 63
    → (s' : Locals) × (o' : Bytes) × (run (tokens_os false) (main (length ns) a b) (asking ns [] o)
        ≡ (running s', asking [] (map (λ n. answer n 1) ns) o'))
unfolding run main
main-repeated ns a b o in_room out_room names h =
    let (s', o', served) = main-IsServed false ns a b o in_room out_room names h in
    (s', o', served ∙ ap (λ l. (running s', asking [] l o')) (given-fails 1 ns))
