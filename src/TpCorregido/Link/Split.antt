-- ===== src/TpCorregido/Link/Split.antt =====
-- material-clases/TP_Corregido/writer.c: a typed line that is longer than the array `msg`.
use cese_sopg_github_io.Common.{
  ℕ, zero, suc, ◌+◌, ◌-◌, ◌*◌, ◌%◌, ◌≤◌, ◌<◌, ◌≡◌, ◌≢◌, refl, ap, ◌∙◌, List, [], ◌∷◌, ◌++◌,
  append_assoc, append-nil, map, length, take, drop, arith, Bool, true, false, sym,
  take-append-drop, lt→ltb, le→ltb, if◌then◌else◌, ◌==◌, length-append, length-drop, length-take,
  take-append_length, take-append_of_le, drop-append_of_le, take_of_le, drop_of_le, dec_lt,
  ℕ_discrete,
}
use cese_sopg_github_io.Memory.{Bytes, until_nul, until_nul-append, clean-take, clean-drop}
use cese_sopg_github_io.Posix.{Prog, running, run, resume, run->>=}
use cese_sopg_github_io.TpCorregido.Kernel.{World, File, writer_os, put_back}
use cese_sopg_github_io.TpCorregido.Protocol.{cut, payload, data_frame}
use cese_sopg_github_io.TpCorregido.Writer
use cese_sopg_github_io.TpCorregido.Link.Steps.{run-writer_round}
use cese_sopg_github_io.TpCorregido.Link.Backlog.{frames, waiting}

-- What the calls of `read` bring of one line, in order; `n` bounds their number.
abbrev pub pieces : ℕ → Bytes → List Bytes
pieces zero l = []
pieces (suc n) [] = []
pieces (suc n) (b ∷ l) = take 20 (b ∷ l) ∷ pieces n (drop 20 (b ∷ l))

abbrev pub joined : List Bytes → Bytes
joined [] = []
joined (p ∷ ps) = p ++ joined ps

-- A line as it is typed.
abbrev pub typed : Bytes → Bytes
typed line = line ++ (b'\n' ∷ [])

length-typed : (line : Bytes) → length (typed line) ≡ length line + 1
length-typed line = length-append line (b'\n' ∷ [])

payload-typed :
    (line : Bytes) → until_nul line ≡ line → length line < 19 → payload (typed line) ≡ line
payload-typed line clean short = ap until_nul cut-typed ∙ clean
  where
    cut-typed : cut (typed line) ≡ line
    cut-typed = rw (lt→ltb (length (typed line)) 20 (omega (arith, length-typed line))) (
        take-append_length (length (typed line) - 1) line (b'\n' ∷ [])
          (omega (arith, length-typed line)))

pub payload-full : (p : Bytes) → length p ≡ 20 → until_nul p ≡ p → payload p ≡ p
payload-full p full clean = rw (le→ltb (length p) 20 (omega arith)) clean

pieces-nil : (n : ℕ) → pieces n [] ≡ []
pieces-nil zero = refl
pieces-nil (suc n) = refl

pieces-typed :
    (n : ℕ) (line : Bytes)
    → pieces (suc n) (typed line) ≡ take 20 (typed line) ∷ pieces n (drop 20 (typed line))
pieces-typed n [] = refl
pieces-typed n (b ∷ line) = refl

-- The last byte of a piece of 20 is kept, also where it is the newline.
abbrev pub kept : Bytes → Bytes
kept line = if (length line + 1) % 20 == 0 then typed line else line

joined-one :
    (n : ℕ) (line : Bytes)
    → length line < 20
    → joined (map payload (pieces (suc n) (typed line))) ≡ payload (typed line)
joined-one n line short = rw (
  pieces-typed n line,
  take_of_le 20 (typed line) (omega (arith, length-typed line)),
  drop_of_le 20 (typed line) (omega (arith, length-typed line)),
  pieces-nil n,
  append-nil,
)

kept-drop : (line : Bytes) → 20 ≤ length line → take 20 line ++ kept (drop 20 line) ≡ kept line
kept-drop line long = by_test ((length line + 1) % 20 == 0) refl
  where
    same_test : (length (drop 20 line) + 1) % 20 ≡ (length line + 1) % 20
    same_test = omega (arith, length-drop 20 line)

    by_test :
        (t : Bool)
        → ((length line + 1) % 20 == 0) ≡ t
        → take 20 line ++ kept (drop 20 line) ≡ kept line
    by_test true e =
        rw (same_test, e)
          (sym (append_assoc (take 20 line) (drop 20 line) (b'\n' ∷ []))
            ∙ ap typed (take-append-drop 20 line))
    by_test false e = rw (same_test, e) (take-append-drop 20 line)

joined-long :
    (n : ℕ) (line : Bytes)
    → until_nul line ≡ line
    → 20 ≤ length line
    → joined (map payload (pieces (suc n) (typed line)))
      ≡ take 20 line ++ joined (map payload (pieces n (typed (drop 20 line))))
joined-long n line clean long = rw (
  pieces-typed n line,
  take-append_of_le 20 line (b'\n' ∷ []) long,
  drop-append_of_le 20 line (b'\n' ∷ []) long,
  payload-full (take 20 line) (omega (arith, length-take 20 line)) (clean-take 20 line clean),
)

-- The texts of the pieces make up the line, with its newline exactly where the line and the
-- newline fill the last piece.
pub joined-pieces :
    (n : ℕ) (line : Bytes)
    → until_nul line ≡ line
    → length line < 20 * n
    → joined (map payload (pieces n (typed line))) ≡ kept line
joined-pieces zero line clean h = absurd (omega arith)
joined-pieces (suc n) line clean h = elim (dec_lt (length line) 20) [
  | no long ↦
      joined-long n line clean (omega arith)
      ∙ ap (λ l. take 20 line ++ l)
          (joined-pieces n (drop 20 line) (clean-drop 20 line clean)
            (omega (arith, length-drop 20 line)))
      ∙ kept-drop line (omega arith)
  | yes short ↦ joined-one n line short ∙ last (ℕ_discrete (length line) 19) short
]
  where
    not_full : length line < 20 → length line ≢ 19 → ((length line + 1) % 20 == 0) ≡ false
    not_full short ne = ground arith

    last : Dec (length line ≡ 19) → length line < 20 → payload (typed line) ≡ kept line
    last (yes e) short =
        payload-full (typed line) (omega (arith, length-typed line))
          (until_nul-append line (b'\n' ∷ []) clean)
        ∙ rw e
    last (no ne) short = payload-typed line clean (omega arith) ∙ rw (not_full short ne)

module _ (rest : Bytes) (ls : List Bytes) (log signals : File) where
  send-pieces :
      (n : ℕ) (l fifo : Bytes)
      → length l ≤ 20 * n
      → run writer_os
          (Writer.loop rest (length (pieces n l)) 3)
          (waiting fifo (put_back l ls) log signals)
        ≡ (running tt, waiting (fifo ++ frames (map payload (pieces n l))) ls log signals)
  unfolding Writer.loop run
  send-pieces zero [] fifo h = rw append-nil
  send-pieces zero (b ∷ l) fifo h = absurd (omega arith)
  send-pieces (suc n) [] fifo h = rw append-nil
  send-pieces (suc n) (b ∷ l) fifo h =
      run->>= writer_os (Writer.round rest 3) next start
      ∙ ap (resume writer_os next) (run-writer_round rest start (cc))
      ∙ send-pieces n (drop 20 (b ∷ l)) (fifo ++ first) (omega (arith, length-drop 20 (b ∷ l)))
      ∙ ap (λ (f : Bytes). (running tt, waiting f ls log signals))
          (append_assoc fifo first (frames (map payload (pieces n (drop 20 (b ∷ l))))))
    where
      start : World
      start = waiting fifo (put_back (b ∷ l) ls) log signals

      next : Unit {0} → Prog (Unit {0})
      next _ = Writer.loop rest (length (pieces n (drop 20 (b ∷ l)))) 3

      first : Bytes
      first = data_frame (payload (take 20 (b ∷ l)))

  -- A typed line without a NUL, of fewer than `20 * n` bytes, goes behind what is in the FIFO as
  -- the frames of its pieces, one for each pass of the Writer, and the texts of the frames make up
  -- the line. Its newline is cut, unless the line and the newline together are a multiple of 20
  -- bytes.
  pub long_line :
      (n : ℕ) (line fifo : Bytes)
      → until_nul line ≡ line
      → length line < 20 * n
      → (run writer_os
            (Writer.loop rest (length (pieces n (typed line))) 3)
            (waiting fifo (typed line ∷ ls) log signals)
          ≡ (
            running tt,
            waiting (fifo ++ frames (map payload (pieces n (typed line)))) ls log signals,
          ))
        × (joined (map payload (pieces n (typed line))) ≡ kept line)
  long_line n line fifo clean h = (
    ap
          (λ (lines : List Bytes).
            run writer_os (Writer.loop rest (length (pieces n (typed line))) 3)
              (waiting fifo lines log signals))
          (waits line)
        ∙ send-pieces n (typed line) fifo (omega (arith, length-typed line)),
    joined-pieces n line clean h,
  )
    where
      waits : (l : Bytes) → typed l ∷ ls ≡ put_back (typed l) ls
      waits [] = refl
      waits (b ∷ l) = refl
