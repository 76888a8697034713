-- ===== src/Posix/Terminal.antt =====
-- A terminal: what will be typed, and what is shown.
use cese_sopg_github_io.Common.{
  ℕ, ◌-◌, Option, none, some, String, List, [], ◌∷◌, ◌++◌, take, drop, length, take_of_le,
  drop_of_le, ◌≤◌, ◌≡◌, refl, ap, ◌∙◌,
}
use cese_sopg_github_io.Memory.{Bytes}
use cese_sopg_github_io.Posix.Defs.{Arg}

-- `read` from the terminal: at most `n` bytes of the line that was typed first; what is left of it
-- waits for the next call. No line means the end of input.
abbrev pub terminal_bytes : ℕ → List Bytes → Bytes
terminal_bytes n [] = []
terminal_bytes n (l ∷ ls) = take n l

-- What is left of a line, if anything, goes back in front.
abbrev pub put_back : Bytes → List Bytes → List Bytes
put_back [] ls = ls
put_back (b ∷ l) ls = (b ∷ l) ∷ ls

abbrev pub terminal_rest : ℕ → List Bytes → List Bytes
terminal_rest n [] = []
terminal_rest n (l ∷ ls) = put_back (drop n l) ls

-- `fgets` from the terminal, which leaves a place for the NUL.
abbrev pub next_line : ℕ → List Bytes → Option Bytes
next_line size [] = none
next_line size (l ∷ ls) = some (take (size - 1) l)

-- What a `printf` shows.
pub record Shown : Type 0 where
  pub format : String
  pub args : List Arg

pub record Terminal : Type 0 where
  pub typed : List Bytes
  pub screen : List Shown

abbrev pub show_on : Terminal → String → List Arg → Terminal
show_on t format args = record t {
  screen = t.screen ++ ((record { format = format; args = args }) ∷ []);
}

-- A line that fits is taken as a whole.
pub terminal_rest-fits :
    (n : ℕ) (l : Bytes) (ls : List Bytes) → length l ≤ n → terminal_rest n (l ∷ ls) ≡ ls
terminal_rest-fits n l ls h = rw (drop_of_le n l h) refl

pub take-take_of_le : (n : ℕ) (l : Bytes) → length l ≤ n → take n (take n l) ≡ l
take-take_of_le n l h = ap (take n) (take_of_le n l h) ∙ take_of_le n l h
