-- ===== src/Cleanup/Frame.antt =====
-- The contexts that a cleanup writes until it leaves to a coroutine or returns.
use msh.Prelude.{ℕ, ◌≡◌, refl, ap, ◌∙◌, Bool, false, ◌==◌, ok, arith}
use msh.Memory.{PrimaryCtx, World, Loader}
use msh.Schedule.Frame.{sched_next_crt_prim}
use msh.Cleanup.{Control, world_of, link_to_self, after_setjmp, msh_cleanup}
use msh.Cleanup.Done.{primary_reset}
use msh.Cleanup.Kept.{IsKept, after_setjmp-kept, msh_cleanup-kept}

module _ (L : Loader) (t s : ℕ) (not_t : (t == s) ≡ false) where
  pub link_to_self_prim : (w : World) → (link_to_self t w).prim s ≡ w.prim s
  unfolding link_to_self
  link_to_self_prim w = ground arith

  pub reset_prim : (w : World) → (primary_reset t w).prim s ≡ w.prim s
  reset_prim w = ground arith

  context-IsKept : IsKept L t (λ w w'. (w.prim s).reallocatable ≡ false → w'.prim s ≡ w.prim s)
  context-IsKept = record {
    same = λ w down. refl;
    chain = λ a b down. b (ap (λ (c : PrimaryCtx). c.reallocatable) (a down) ∙ down) ∙ a down;
    link = λ w down. link_to_self_prim w;
    reset = λ w down. reset_prim w;
    next = λ w w' to e down. sched_next_crt_prim L t s not_t 0 w w' to down e;
  }

  pub after_setjmp_prim :
      (w : World) (c : Control)
      → (w.prim s).reallocatable ≡ false
      → after_setjmp L t w ≡ ok c
      → (world_of c).prim s ≡ w.prim s
  after_setjmp_prim w c down e = after_setjmp-kept context-IsKept w c e down

  pub msh_cleanup_prim :
      (skip : Bool) (w : World) (c : Control)
      → (w.prim s).reallocatable ≡ false
      → msh_cleanup L t skip w ≡ ok c
      → (world_of c).prim s ≡ w.prim s
  msh_cleanup_prim skip w c down e = msh_cleanup-kept context-IsKept skip w c e down
