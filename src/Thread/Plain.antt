-- ===== src/Thread/Plain.antt =====
-- The links after the calls of a thread.
use mathlib.Core.Path.{subst}
use msh.Prelude.{ℕ, ◌≤◌, ◌≡◌, sym, true, false, some, ℤ, ok, arith}
use msh.Memory.{World, Loader}
use msh.NextMap.Plain.{IsPlain, IsPlain-congr}
use msh.Allocate.Donors.{set_flag_ycs}
use msh.Allocate.Plain.{allocate_scav-IsPlain}
use msh.Schedule.Plain.{update_map-IsPlain}
use msh.Thread.{
  init_primary_ctx, clear_reallocated, alloc_ctx, enter_blockable_call, exit_blockable_call,
}
use msh.Thread.Kept.{IsKept, alloc_ctx-kept, exit_blockable_call-kept}

module _ (L : Loader) (t s : ℕ) where
  -- Only the link of the primary is written.
  init_primary_ctx_links :
      (n q : ℕ) (w : World)
      → 1 ≤ q
      → (((init_primary_ctx t n w).prim s).ycs q).normal_next ≡ ((w.prim s).ycs q).normal_next
  unfolding init_primary_ctx
  init_primary_ctx_links n q w lo = ground arith

  clear_ycs : (w : World) → (w.prim s).ycs ≡ ((clear_reallocated t w).prim s).ycs
  clear_ycs w = ground arith

  pub enter_blockable_call-IsPlain :
      (w : World) → IsPlain (w.prim s).ycs → IsPlain ((enter_blockable_call t w).prim s).ycs
  unfolding enter_blockable_call
  enter_blockable_call-IsPlain w = subst IsPlain (sym (set_flag_ycs t true w s))

  IsPlain-IsKept : IsKept L t (λ w w'. IsPlain (w.prim s).ycs → IsPlain (w'.prim s).ycs)
  IsPlain-IsKept = record {
    chain = λ a b plain. b (a plain);
    start = λ w plain. plain;
    allocate = allocate_scav-IsPlain L t s;
    init = λ n w.
        IsPlain-congr (w.prim s).ycs ((init_primary_ctx t n w).prim s).ycs
          (λ q lo. init_primary_ctx_links n q w lo);
    lower = λ w. subst IsPlain (sym (set_flag_ycs t false w s));
    map = update_map-IsPlain L t s;
    clear = λ w. subst IsPlain (clear_ycs w);
  }

  pub alloc_ctx-IsPlain :
      (r : ℤ) (w w' : World)
      → alloc_ctx L t w ≡ ok (r, w')
      → IsPlain (w.prim s).ycs
      → IsPlain (w'.prim s).ycs
  alloc_ctx-IsPlain = alloc_ctx-kept IsPlain-IsKept

  pub exit_blockable_call-IsPlain :
      (w w' : World)
      → exit_blockable_call L t w ≡ ok (some w')
      → IsPlain (w.prim s).ycs
      → IsPlain (w'.prim s).ycs
  exit_blockable_call-IsPlain = exit_blockable_call-kept IsPlain-IsKept
