-- ===== src/Children/Tests.antt =====
-- A run of material-clases/clase3/practica2.c, and the theorem at it.
use cese_sopg_github_io.Common.{◌≡◌, [], ◌∷◌, arith}
use cese_sopg_github_io.Posix.{exited}
use cese_sopg_github_io.Posix.Blocking.{run_blocking}
use cese_sopg_github_io.Children.{parent}
use cese_sopg_github_io.Children.Kernel.{child_os, interrupted}
use cese_sopg_github_io.Children.Reaped.{handle, world, transcript, parent-signalled}

-- The child ends while the parent reads, and the two other signals come from elsewhere.
parent-signalled_example :
    run_blocking child_os interrupted (handle 2) parent (world (1 ∷ 0 ∷ 0 ∷ []) 0 1 [])
    ≡ (exited 0, world [] 0 2 (transcript 1 0 0))
parent-signalled_example = parent-signalled 2 1 0 0 (omega arith) (omega arith) (omega arith)
