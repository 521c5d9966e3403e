-- ===== src/Thread.antt =====
-- libmsh/msh.c: what a thread calls, `msh_alloc_ctx` when it starts, and `msh_enter_blockable_call`
-- and `msh_exit_blockable_call` round a call that may block. A thread calls the last two with
-- `msh_reallocatable` and `msh_reallocated` pointing into its own context.
pub mod Start
pub mod Blocking
pub mod Offsets
pub mod Tables
pub mod Kept
pub mod Idle
pub mod Frame
pub mod Plain
pub mod Primary
use msh.Prelude.{
  ℕ, ltb, ◌==◌, if◌then◌else◌, Bool, true, false, update, Option, none, some, ℤ, pos, minus_one,
  Outcome, ok, ◌>>=◌,
}
use msh.Memory.{sizeof_yield_ctx, max_thread_num, YieldCtx, PrimaryCtx, World, put_prim, Loader}
use msh.Allocate.{allocate_scav, set_flag}
use msh.Schedule.{update_map}

-- `init_primary_ctx` on thread `t`
pub init_primary_ctx : ℕ → ℕ → World → World
init_primary_ctx t counts w =
    put_prim t
      (record (w.prim t) {
        ycs = update (w.prim t).ycs 0 (record ((w.prim t).ycs 0) {
          normal_next = if ltb 0 counts then pos sizeof_yield_ctx else pos 0;
        });
        scav_num = counts;
        reallocatable = false;
        reallocated = false;
      })
      w

-- `msh_reallocated` of thread `t` is set to false.
abbrev pub clear_reallocated : ℕ → World → World
clear_reallocated t w = put_prim t (record (w.prim t) { reallocated = false }) w

-- `cur_crt_pos = 0` on thread `t`
abbrev pub at_primary : ℕ → World → World
at_primary t w = record w { cur_crt_pos = update w.cur_crt_pos t (pos 0) }

-- `msh_enter_blockable_call`
unfoldable pub enter_blockable_call : ℕ → World → World
enter_blockable_call t w = set_flag t true w

module _ (L : Loader) where
  -- `msh_alloc_ctx(tid)`
  unfoldable pub alloc_ctx : ℕ → World → Outcome (ℤ × World)
  unfolding init_primary_ctx
  alloc_ctx tid w =
      if ltb tid max_thread_num
      then (allocate_scav L tid (at_primary tid w) >>= λ (cnt, w1).
          ok (pos 0, init_primary_ctx tid cnt w1))
      else ok (minus_one, at_primary tid w)

  -- One round of the loop of `msh_exit_blockable_call`, and what follows it: `none` if the flag is
  -- down and the loop goes round again.
  pub exit_blockable_call : ℕ → World → Outcome (Option World)
  exit_blockable_call t w = elim (w.prim t).reallocatable [
    | false ↦ ok none
    | true ↦
        let w1 = set_flag t false w in
        elim (w1.prim t).reallocated [
          | false ↦ ok (some w1)
          | true ↦ (allocate_scav L t w1 >>= λ (cnt, w2). ok (update_map t w2)) >>= λ w3.
              ok (some (clear_reallocated t w3))
        ]
  ]
