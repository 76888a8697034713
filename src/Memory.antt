-- ===== src/Memory.antt =====
-- C char arrays and the functions of <string.h> that the programs call. An array is the list of
-- its bytes; an access outside it is `none`, undefined behaviour in C.
mod Defs
mod Laws
pub mod Strings
unfoldable pub use Defs.{
  Bytes, codes, ◌>>=◌, bzero, c_string, strlen, store, copy_at, strcpy, strcat, strncmp_eq,
}
pub use Laws.*
