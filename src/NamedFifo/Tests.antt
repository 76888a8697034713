-- ===== src/NamedFifo/Tests.antt =====
-- A run of material-clases/clase4/ejemplo-named-fifo, and the theorem at it.
use cese_sopg_github_io.Common.{List, [], ◌∷◌, replicate}
use cese_sopg_github_io.Memory.{Bytes, codes}

abbrev garbage : Bytes
garbage = replicate 300 7

abbrev two_lines : List Bytes
two_lines = codes "hola\n" ∷ codes "chau\n" ∷ []
