-- ===== src/Memory/External.antt =====
-- What libmsh takes from outside: the dynamic loader, the shell's word expansion, the addresses
-- that the linker gives, and the code of the scavengers.
use msh.Prelude.{ℕ, Option, List}
use msh.Memory.Layout.{YieldCtx}

-- The symbols that the runtime looks up in a scavenger's shared object.
pub data Symbol : Type 0 where
  entry init argc argv crt_pos loop_counter_loc : Symbol

pub record Loader : Type 0 where
  -- the words of a command line
  pub wordexp : List ℕ → List (List ℕ)
  -- the handle of a shared object, `none` for failure; the argument may be a null pointer
  pub dlopen : Option (List ℕ) → Option ℕ
  -- the address of a symbol, `none` where the object has no such symbol
  pub dlsym : ℕ → Symbol → Option ℕ
  -- the address of `SCAV_TABLE`
  pub scav_base : ℕ
  -- what a scavenger's `init`, by its address, leaves in the yield context that it runs on
  pub run_init : ℕ → YieldCtx → YieldCtx
