-- ===== src/MappedFile/Tests.antt =====
-- A run of material-clases/clase7/ejemplo-mmap-file/mmap.c, and the theorem at it.
use cese_sopg_github_io.Common.{◌≡◌, [], ◌∷◌, refl, none}
use cese_sopg_github_io.MappedFile.Loop.{upper_loop}

-- An accented letter of ISO 8859-1 is a negative `char`.
upper_loop-accent : upper_loop 1 0 (241 ∷ []) ≡ none
unfolding upper_loop
upper_loop-accent = refl
