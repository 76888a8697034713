-- ===== src/Mutex/Tests.antt =====
-- Runs of both programs, and the theorems at them.
use cese_sopg_github_io.Common.{◌≡◌, List, [], ◌∷◌, arith}
use cese_sopg_github_io.Mutex.{Shown}
use cese_sopg_github_io.Mutex.Ok
use cese_sopg_github_io.Mutex.Ok.Equal.{AllEqual, prints_equal}
use cese_sopg_github_io.Mutex.Incorrecto
use cese_sopg_github_io.Mutex.Incorrecto.Drift.{prints_apart}

abbrev zeros_shown : List Shown
zeros_shown = (record { shown_a = 0; shown_b = 0 }) ∷ []

abbrev printed_once : Ok.System
printed_once = record Ok.init { printed = zeros_shown }

reach_printed : Ok.Reach printed_once
reach_printed =
    Ok.later
      (Ok.later
        (Ok.later
          (Ok.later (Ok.later Ok.start (Ok.run_main Ok.main_takes)) (Ok.run_main Ok.reads_a))
          (Ok.run_main Ok.reads_b))
        (Ok.run_main Ok.main_gives_back))
      (Ok.run_main Ok.prints)

prints_equal_example : AllEqual zeros_shown
prints_equal_example = prints_equal {s = printed_once} reach_printed

prints_apart_example :
    (s : Incorrecto.System) × Incorrecto.Reach s
    × (s.printed ≡ (record { shown_a = 6; shown_b = 3 }) ∷ [])
prints_apart_example = prints_apart 3 (omega arith)
