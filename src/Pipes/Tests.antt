-- ===== src/Pipes/Tests.antt =====
-- A run of material-clases/clase3/ejemplo-pipes.c, and the theorem at it.
use cese_sopg_github_io.Common.{[], refl, replicate}
use cese_sopg_github_io.Memory.{Bytes}
use cese_sopg_github_io.Processes.{Ends}
use cese_sopg_github_io.Pipes.{child, parent}
use cese_sopg_github_io.Pipes.Kernels.{child_side, parent_side}
use cese_sopg_github_io.Pipes.Exchange.{
  BothShown, first_pipe, second_pipe, between, forked, exchange-BothShown,
}

abbrev garbage : Bytes
garbage = replicate 30 7

exchange-BothShown_example :
    Ends child_side parent_side BothShown
      (child first_pipe second_pipe garbage)
      forked
      (parent first_pipe second_pipe garbage)
      forked
      (between [] [])
exchange-BothShown_example = exchange-BothShown garbage refl
