-- ===== src/Schedule/Frame.antt =====
-- The contexts that a return through the scheduler writes.
use msh.Prelude.{ℕ, ◌≡◌, refl, ap, ◌∙◌, false, ◌==◌, ok, arith}
use msh.Memory.{PrimaryCtx, World, Loader}
use msh.Finish.{finish_crt}
use msh.Pack.Frame.{pack_crts_prim}
use msh.Allocate.Frame.{allocate_scav_prim}
use msh.Schedule.{Switch, update_map, sched_next_crt}
use msh.Schedule.Kept.{IsKept, sched_next_crt-kept}

module _ (L : Loader) (t s : ℕ) (not_t : (t == s) ≡ false) where
  pub update_map_prim : (w : World) → (update_map t w).prim s ≡ w.prim s
  update_map_prim w = ground arith

  pub finish_crt_prim : (p : ℕ) (w : World) → (finish_crt t p w).prim s ≡ w.prim s
  unfolding finish_crt
  finish_crt_prim p w = ground arith

  context-IsKept : IsKept L t (λ w w'. (w.prim s).reallocatable ≡ false → w'.prim s ≡ w.prim s)
  context-IsKept = record {
    same = λ w down. refl;
    chain = λ a b down. b (ap (λ (c : PrimaryCtx). c.reallocatable) (a down) ∙ down) ∙ a down;
    count = λ w down. refl;
    finish = λ p w down. finish_crt_prim p w;
    map = λ w down. update_map_prim w;
    pack = λ w w' e down. pack_crts_prim L t s not_t w w' e;
    allocate = λ r w w' e down. allocate_scav_prim L t s not_t r w w' down e;
    jump = λ f w down. refl;
  }

  -- A return of a coroutine of thread `t`, whatever number it gives, writes the context of `t` and
  -- those of threads whose flag is up.
  pub sched_next_crt_prim :
      (ret : ℕ) (w w' : World) (to : Switch)
      → (w.prim s).reallocatable ≡ false
      → sched_next_crt L t ret w ≡ ok (to, w')
      → w'.prim s ≡ w.prim s
  sched_next_crt_prim ret w w' to down e = sched_next_crt-kept context-IsKept ret w w' to e down
