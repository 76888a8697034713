-- ===== src/Mutex.antt =====
-- material-clases/clase6/ejemplo-mutex: two counters that two threads increment and `main` prints, with
-- a mutex (main_ok.c) and without it (main_incorrecto.c).
pub mod Ok
pub mod Incorrecto
mod Tests
use cese_sopg_github_io.Common.{ℕ}

-- `data_t`
pub record Data : Type 0 where
  pub a : ℕ
  pub b : ℕ

-- What one `printf` shows.
pub record Shown : Type 0 where
  pub shown_a : ℕ
  pub shown_b : ℕ
