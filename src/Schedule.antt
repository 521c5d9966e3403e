-- ===== src/Schedule.antt =====
-- libmsh/msh.c: `tl_sched_next_crt`, the scheduler that a finished coroutine returns to.
pub mod Running
pub mod Leaving
pub mod Return
pub mod Draining
pub mod Calling
pub mod Tables
pub mod Kept
pub mod Frame
pub mod Plain
pub mod Primary
pub mod Going
use msh.Prelude.{
  ℕ, suc, ◌+◌, ◌/◌, ◌==◌, ltb, if◌then◌else◌, Bool, true, false, update, ℤ, pos, negsuc, to_short,
  to_size, Outcome, ok, fault, ◌>>=◌,
}
use msh.Memory.{max_crt_per_thread, sizeof_yield_ctx, YieldCtx, PrimaryCtx, World, put_prim, Loader}
use msh.IdxList.{find_unfinished_crt}
use msh.NextMap.{has_next, update_next_map}
use msh.Finish.{finish_crt}
use msh.Pack.{pack_crts}
use msh.Allocate.{allocate_scav}

-- Where the scheduler leaves to: the stack and instruction pointers of a coroutine, or the
-- `longjmp` into `msh_cleanup`.
pub data Switch : Type 0 where
  resume : (crt sp ip : ℕ) → Switch
  end_cleanup : Switch

-- `tl_update_next_map` on thread `t`
abbrev pub update_map : ℕ → World → World
update_map t w = put_prim t (update_next_map (w.prim t)) w

-- `++finished_scav_cnt`
abbrev pub counted : World → World
counted w = record w { finished_scav_cnt = w.finished_scav_cnt + 1 }

-- The jump to the coroutine at a position. Outside the array there is no context to jump to.
pub switch_to : ℕ → ℤ → World → Outcome (Switch × World)
switch_to t (negsuc n) w = fault
switch_to t (pos c) w =
    if ltb max_crt_per_thread c
    then fault
    else ok (
      resume c ((w.prim t).ycs c).sp ((w.prim t).ycs c).ip,
      record w { cur_crt_pos = update w.cur_crt_pos t (pos c) },
    )

-- The cleanup branch: the next unfinished scavenger, or the end.
pub switch_cleanup : ℕ → ℕ → World → Outcome (Switch × World)
unfolding switch_to
switch_cleanup t c w =
    if c == 0
    then ok (end_cleanup, record w { cur_crt_pos = update w.cur_crt_pos t (pos 0) })
    else switch_to t (pos c) w

module _ (L : Loader) (t : ℕ) where
  -- "get new one if needed", while the primary runs
  pub refill : World → Outcome World
  refill w =
      if has_next (w.prim t).ycs 0
      then (allocate_scav L t w >>= λ (cnt, w'). ok (update_map t w'))
      else ok w

  -- From the refill to the jump; `next` is the link of the coroutine that has returned.
  pub leave : ℤ → World → Outcome (Switch × World)
  unfolding switch_to switch_cleanup refill
  leave next w = refill w >>= λ w1.
      if has_next (w1.prim t).ycs 0
      then switch_to t next w1
      else switch_cleanup t (find_unfinished_crt (w1.prim t).idx_list) w1

  -- `tl_sched_next_crt` for a return from position `p`; beyond the array there is no coroutine.
  pub sched_from : ℕ → World → Outcome (Switch × World)
  unfolding leave
  sched_from p w =
      let next = to_short (to_size ((w.prim t).ycs p).normal_next / sizeof_yield_ctx) in
      let w0 = if p == 0 then w else counted w in
      if ltb max_crt_per_thread p
      then fault
      else (pack_crts L t (update_map t (finish_crt t p w0)) >>= leave next)

  -- `tl_sched_next_crt(ret)`: what a coroutine returns is the offset of its context.
  unfoldable pub sched_next_crt : ℕ → World → Outcome (Switch × World)
  unfolding sched_from
  sched_next_crt ret w = sched_from (ret / sizeof_yield_ctx) w
