-- ===== src/TimedWait/Tests.antt =====
-- Runs of material-clases/clase7/ejemplo-sem/sem.c, and the theorem at one.
use cese_sopg_github_io.Common.{◌≡◌, refl}
use cese_sopg_github_io.Memory.{codes}
use cese_sopg_github_io.TimedWait.{atoi}

atoi-junk : atoi (codes "12s") ≡ 12
unfolding atoi
atoi-junk = refl

atoi-blank : atoi (codes " \t+2") ≡ 2
unfolding atoi
atoi-blank = refl
