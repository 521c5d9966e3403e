-- ===== src/Memory.antt =====
-- libmsh/msh.h and the static data of libmsh/msh.c: the contexts that the runtime and the
-- instrumented binaries share, the two tables, and the bounds.
-- An array is a function of the index. An entry of `idx_list` is -1 or an index of the scavenger
-- table, here `none` or `some`; a `short` that may be -1 is an integer.
mod Layout
mod External
mod Tables
pub use Layout.*
pub use External.*
unfoldable pub use Tables.{set_scav_yc}
pub use Tables.*
