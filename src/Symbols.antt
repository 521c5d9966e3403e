-- ===== src/Symbols.antt =====
-- libmsh/msh.c: the variables of a scavenger's shared object that the runtime sets, `argc`, `argv`,
-- `crt_pos` and `loop_counter_loc`, through `dlsym`.
pub mod Frame
pub mod Offsets
pub mod Counters
use msh.Prelude.{
  ℕ, ◌+◌, ◌*◌, ◌==◌, if◌then◌else◌, update, Option, none, some, List, Outcome, ok, exit, fault,
  ◌>>=◌,
}
use msh.Memory.{
  num_of_lines_for_loop_counter, sizeof_yield_ctx, offset_loop_counter, PrimaryCtx, CoroutineCtx,
  World, put_prim, Loader, Symbol, argc, argv, crt_pos, loop_counter_loc,
}

-- `*a = v` for a variable of a shared object
abbrev pub put_int : ℕ → ℕ → World → World
put_int a v w = record w { ints = update w.ints a v }

abbrev pub put_argv : ℕ → List (List ℕ) → World → World
put_argv a v w = record w { argvs = update w.argvs a v }

-- A handle that must not be null: the code asserts it, or hands it to `dlsym` unchecked.
pub handle_of : CoroutineCtx → Outcome ℕ
handle_of s = elim s.lib_handle [ none ↦ fault | some h ↦ ok h ]

module _ (L : Loader) where
  -- `dlsym` with the `err_check` on `dlerror` behind it
  pub require : ℕ → Symbol → Outcome ℕ
  require h s = elim (L.dlsym h s) [ none ↦ exit | some a ↦ ok a ]

  -- `dlsym` with a write through the result and no check
  pub unchecked : ℕ → Symbol → Outcome ℕ
  unchecked h s = elim (L.dlsym h s) [ none ↦ fault | some a ↦ ok a ]

  -- The end of `set_scav_symbol`: the loop counters of position `p`, if the scavenger has any.
  pub set_loop_counter : ℕ → ℕ → ℕ → World → World
  set_loop_counter h t p w = elim (L.dlsym h loop_counter_loc) [
    | none ↦ w
    | some a ↦
        put_prim t (record (w.prim t) { loop_counter = update (w.prim t).loop_counter p (λ _. 0) })
          (put_int a (offset_loop_counter + num_of_lines_for_loop_counter * 64 * p) w)
  ]

  -- `set_scav_symbol(i, p)` on thread `t`
  unfoldable pub set_scav_symbol : ℕ → ℕ → ℕ → World → Outcome World
  unfolding handle_of require set_loop_counter
  set_scav_symbol t i p w = do
    h ← handle_of (w.scav i)
    argc_at ← require h argc
    argv_at ← require h argv
    crt_pos_at ← require h crt_pos
    ok (
        set_loop_counter h t p (
          put_int crt_pos_at (p * sizeof_yield_ctx)
            (put_argv argv_at (w.scav i).argv (put_int argc_at (w.scav i).argc w))))

  -- The end of `tl_swap_crts` for one of the two, and of `realloc_scav`: the position itself is
  -- written, where `set_scav_symbol` writes its offset. Nothing is written for index -1.
  pub move_symbol : Option ℕ → ℕ → World → Outcome World
  unfolding handle_of unchecked
  move_symbol none p w = ok w
  move_symbol (some i) p w = do
    h ← handle_of (w.scav i)
    crt_pos_at ← unchecked h crt_pos
    ok (put_int crt_pos_at p w)
