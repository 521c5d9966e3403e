-- ===== src/Thread/Frame.antt =====
-- The contexts that the calls of a thread write.
use msh.Prelude.{ℕ, ◌≡◌, refl, ap, ◌∙◌, Bool, true, false, ◌==◌, some, ℤ, ok, arith}
use msh.Memory.{PrimaryCtx, World, Loader}
use msh.Allocate.{set_flag}
use msh.Allocate.Frame.{allocate_scav_prim}
use msh.Schedule.Frame.{update_map_prim}
use msh.Thread.{
  init_primary_ctx, clear_reallocated, alloc_ctx, enter_blockable_call, exit_blockable_call,
}
use msh.Thread.Kept.{IsKept, alloc_ctx-kept, exit_blockable_call-kept}

module _ (L : Loader) (t s : ℕ) (not_t : (t == s) ≡ false) where
  init_primary_ctx_prim : (n : ℕ) (w : World) → (init_primary_ctx t n w).prim s ≡ w.prim s
  unfolding init_primary_ctx
  init_primary_ctx_prim n w = ground arith

  flag_prim : (b : Bool) (w : World) → (set_flag t b w).prim s ≡ w.prim s
  flag_prim b w = ground arith

  clear_prim : (w : World) → (clear_reallocated t w).prim s ≡ w.prim s
  clear_prim w = ground arith

  pub enter_blockable_call_prim : (w : World) → (enter_blockable_call t w).prim s ≡ w.prim s
  unfolding enter_blockable_call
  enter_blockable_call_prim w = flag_prim true w

  context-IsKept : IsKept L t (λ w w'. (w.prim s).reallocatable ≡ false → w'.prim s ≡ w.prim s)
  context-IsKept = record {
    chain = λ a b down. b (ap (λ (c : PrimaryCtx). c.reallocatable) (a down) ∙ down) ∙ a down;
    start = λ w down. refl;
    allocate = λ r w w' e down. allocate_scav_prim L t s not_t r w w' down e;
    init = λ n w down. init_primary_ctx_prim n w;
    lower = λ w down. flag_prim false w;
    map = λ w down. update_map_prim L t s not_t w;
    clear = λ w down. clear_prim w;
  }

  pub alloc_ctx_prim :
      (r : ℤ) (w w' : World)
      → (w.prim s).reallocatable ≡ false
      → alloc_ctx L t w ≡ ok (r, w')
      → w'.prim s ≡ w.prim s
  alloc_ctx_prim r w w' down e = alloc_ctx-kept context-IsKept r w w' e down

  pub exit_blockable_call_prim :
      (w w' : World)
      → (w.prim s).reallocatable ≡ false
      → exit_blockable_call L t w ≡ ok (some w')
      → w'.prim s ≡ w.prim s
  exit_blockable_call_prim w w' down e = exit_blockable_call-kept context-IsKept w w' e down
