-- ===== src/Cleanup/Round.antt =====
-- One scavenger that runs to completion in `msh_cleanup`.
use msh.Prelude.{ℕ, suc, ◌*◌, ◌≤◌, ◌≡◌, refl, ap, ◌∙◌, sym, some, ok, ◌>>=◌, arith}
use msh.Memory.{max_crt_per_thread, sizeof_yield_ctx, World, Loader, crt_pos}
use msh.IdxList.{find_unfinished_crt}
use msh.Hosting.{idx_at}
use msh.Hosting.Steps.{Detach-IsHosting}
use msh.Symbols.Frame.{IsLinked-handle, handle_of_loaded, unchecked_found}
use msh.Finish.{finish_crt_scavenger}
use msh.Schedule.{resume, counted, switch_cleanup}
use msh.Schedule.Leaving.{taken_out}
use msh.Schedule.Draining.{sched_from_draining, sched_next_crt_offset}
use msh.Cleanup.{running, exit_value, run_control}
use msh.Cleanup.Prepare.{IsDraining}
use msh.Cleanup.Taken.{still_over, taken_out-Detach}

module _ (L : Loader) (t p i : ℕ) (w : World) (d : IsDraining L t w) (lo : 1 ≤ p)
    (hi : p ≤ max_crt_per_thread) (was : idx_at w t p ≡ some i) where
  -- What the scavenger returns is the offset of its position.
  exit_value_lem : exit_value L t p w ≡ ok (p * sizeof_yield_ctx)
  unfolding exit_value
  exit_value_lem =
      let (g, has) = d.hosting.loaded t p i lo hi was in
      let (a, b, c) = d.linked.has i g has in
      let value = d.symbols p i g c.0 lo hi was has c.1 in
      rw
        (
          was,
          exit_value,
          handle_of_loaded L (w.scav i) g has,
          unchecked_found L g c.0 crt_pos c.1,
          value,
        )
        refl

  ints_kept : (taken_out t p w).ints ≡ w.ints
  unfolding taken_out
  ints_kept = (finish_crt_scavenger t p i (counted w) lo was).ints

  pub taken_out-IsDraining : IsDraining L t (taken_out t p w)
  taken_out-IsDraining =
      let gone = taken_out-Detach t p i w lo was in
      record {
        hosting = Detach-IsHosting d.hosting lo hi gone was;
        linked = IsLinked-handle d.linked gone.handle;
        over = still_over t p i w lo was d.over;
        symbols = λ q j g x lo' hi' at_ loaded has.
            ap (λ (f : ℕ → ℕ). f x) ints_kept
            ∙ d.symbols q j g x lo' hi' (ground (arith, gone.idx t q))
                (sym (gone.handle j) ∙ loaded) has;
      }

  -- The scavenger returns, and the scheduler goes on with the cleanup.
  pub run_resumed :
      (fuel sp ip : ℕ)
      → run_control L t (suc fuel) (running (resume p sp ip) w) ≡ (
          switch_cleanup t
            (find_unfinished_crt ((taken_out t p w).prim t).idx_list)
            (taken_out t p w)
          >>= λ (s, w1). run_control L t fuel (running s w1))
  unfolding run_control
  run_resumed fuel sp ip =
      rw
        (
          exit_value_lem,
          sched_next_crt_offset L t p w,
          sched_from_draining L t p i w lo hi was d.over,
        )
        refl
