-- ===== src/Cleanup.antt =====
-- libmsh/msh.c: `msh_cleanup`, which runs the scavengers of a thread to completion when its primary
-- has finished. A scavenger that is resumed runs until it returns the value of its `crt_pos`.
pub mod Prepare
pub mod Round
pub mod Done
pub mod Drain
pub mod Tables
pub mod Kept
pub mod Frame
pub mod Plain
pub mod Taken
pub mod Turns
pub mod Primary
pub mod Going
use msh.Prelude.{
  ℕ, zero, suc, ◌==◌, if◌then◌else◌, Bool, true, false, for_each, update, Option, none, some, ℤ,
  pos, is_minus_one, Outcome, ok, fault, ◌>>=◌,
}
use msh.Memory.{
  max_crt_per_thread, YieldCtx, PrimaryCtx, CoroutineCtx, World, put_prim, put_yc, Loader, crt_pos,
}
use msh.IdxList.{find_unfinished_crt}
use msh.NextMap.{has_next}
use msh.Hosting.{idx_at}
use msh.Symbols.{handle_of, unchecked}
use msh.Allocate.{self_linked}
use msh.Schedule.{Switch, resume, end_cleanup, sched_next_crt}

-- The loop over the contexts: each unfinished one yields to itself from now on.
pub link_to_self : ℕ → World → World
link_to_self t w =
    put_prim t
      (record (w.prim t) {
        ycs =
            for_each max_crt_per_thread 1
              (λ p yc. if is_minus_one yc.normal_next then yc else self_linked p yc) (w.prim t).ycs;
      })
      w

-- How control goes on: `msh_cleanup` has returned, or a coroutine runs.
pub data Control : Type 0 where
  returned : World → Control
  running : Switch → World → Control

-- The world in which control goes on.
abbrev pub world_of : Control → World
world_of (returned w) = w
world_of (running s w) = w

module _ (L : Loader) (t : ℕ) where
  -- From `setjmp` on, the first time and after the `longjmp`.
  pub after_setjmp : World → Outcome Control
  after_setjmp w =
      if find_unfinished_crt (w.prim t).idx_list == 0
      then ok (returned (put_yc t 0 (record ((w.prim t).ycs 0) { normal_next = pos 0 }) w))
      else (sched_next_crt L t 0 w >>= λ (s, w1). ok (running s w1))

  -- `msh_cleanup`, with whether SKIP_CLEANUP is set.
  pub msh_cleanup : Bool → World → Outcome Control
  unfolding link_to_self after_setjmp
  msh_cleanup skip w = if skip then ok (returned w) else after_setjmp (link_to_self t w)

  -- What the scavenger at `p` returns: its own `crt_pos`, as `entry` of
  -- apps/src/scavengers/compute.cpp does.
  pub exit_value : ℕ → World → Outcome ℕ
  exit_value p w = elim (idx_at w t p) [
    | none ↦ fault
    | some i ↦ handle_of (w.scav i) >>= λ h. unchecked L h crt_pos >>= λ a. ok (w.ints a)
  ]

  -- Control until `msh_cleanup` returns, or for `fuel` switches at most.
  pub run_control : ℕ → Control → Outcome Control
  unfolding exit_value after_setjmp
  run_control zero c = ok c
  run_control (suc fuel) (returned w) = ok (returned w)
  run_control (suc fuel) (running end_cleanup w) = after_setjmp w >>= run_control fuel
  run_control (suc fuel) (running (resume p sp ip) w) = exit_value p w >>= λ ret.
      sched_next_crt L t ret w >>= λ (s, w1). run_control fuel (running s w1)
