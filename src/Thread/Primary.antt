-- ===== src/Thread/Primary.antt =====
-- The primaries after the calls of a thread.
use mathlib.Core.Path.{subst}
use msh.Prelude.{
  ok_second, inl, inr, Outcome, bind_ok, pos, minus_one, ltb, Bool-cases, ℕ, ◌≡◌, sym, true, false,
  some, ℤ, ok, arith,
}
use msh.Allocate.{allocate_scav}
use msh.Memory.{max_thread_num, World, Loader}
use msh.NextMap.Primary.{IsRunning}
use msh.Allocate.Donors.{set_flag_ycs}
use msh.Allocate.Primary.{allocate_scav-IsRunning}
use msh.Schedule.Primary.{update_map-IsRunning}
use msh.Thread.{
  at_primary, init_primary_ctx, clear_reallocated, alloc_ctx, enter_blockable_call,
  exit_blockable_call,
}
use msh.Thread.Kept.{IsKept, alloc_ctx-kept, exit_blockable_call-kept}

module _ (L : Loader) (t s : ℕ) where
  -- The primary of the thread itself runs from here on.
  init_primary_ctx-IsRunning :
      (n : ℕ) (w : World)
      → IsRunning (w.prim s).ycs
      → IsRunning ((init_primary_ctx t n w).prim s).ycs
  unfolding init_primary_ctx
  init_primary_ctx-IsRunning n w runs = ground arith

  clear_ycs : (w : World) → (w.prim s).ycs ≡ ((clear_reallocated t w).prim s).ycs
  clear_ycs w = ground arith

  pub enter_blockable_call-IsRunning :
      (w : World) → IsRunning (w.prim s).ycs → IsRunning ((enter_blockable_call t w).prim s).ycs
  unfolding enter_blockable_call
  enter_blockable_call-IsRunning w = subst IsRunning (sym (set_flag_ycs t true w s))

  IsRunning-IsKept : IsKept L t (λ w w'. IsRunning (w.prim s).ycs → IsRunning (w'.prim s).ycs)
  IsRunning-IsKept = record {
    chain = λ a b runs. b (a runs);
    start = λ w runs. runs;
    allocate = allocate_scav-IsRunning L t s;
    init = init_primary_ctx-IsRunning;
    lower = λ w. subst IsRunning (sym (set_flag_ycs t false w s));
    map = update_map-IsRunning L t s;
    clear = λ w. subst IsRunning (clear_ycs w);
  }

  pub alloc_ctx-IsRunning :
      (r : ℤ) (w w' : World)
      → alloc_ctx L t w ≡ ok (r, w')
      → IsRunning (w.prim s).ycs
      → IsRunning (w'.prim s).ycs
  alloc_ctx-IsRunning = alloc_ctx-kept IsRunning-IsKept

  pub exit_blockable_call-IsRunning :
      (w w' : World)
      → exit_blockable_call L t w ≡ ok (some w')
      → IsRunning (w.prim s).ycs
      → IsRunning (w'.prim s).ycs
  exit_blockable_call-IsRunning = exit_blockable_call-kept IsRunning-IsKept

init_primary_ctx_runs : (t n : ℕ) (w : World) → IsRunning ((init_primary_ctx t n w).prim t).ycs
unfolding init_primary_ctx
init_primary_ctx_runs t n w = ground arith

-- A thread that has started has a primary that runs.
pub alloc_ctx_runs :
    (L : Loader) (t : ℕ) (w w' : World)
    → alloc_ctx L t w ≡ ok (pos 0, w')
    → IsRunning (w'.prim t).ycs
unfolding alloc_ctx
alloc_ctx_runs L t w w' e = elim (Bool-cases (ltb t max_thread_num)) [
  | inr out ↦ absurd (refused (rw out at e))
  | inl in_ ↦
      let ((cnt, w1), given, rest) =
        bind_ok (allocate_scav L t (at_primary t w)) _ (pos 0, w') (rw in_ at e) in
      subst (λ (x : World). IsRunning (x.prim t).ycs) (ok_second rest)
        (init_primary_ctx_runs t cnt w1)
]
  where
    refused : {v : World} → ◌≡◌ {A = Outcome (ℤ × World)} (ok (minus_one, v)) (ok (pos 0, w')) → ⊥
    refused d = cc
