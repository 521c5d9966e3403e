-- ===== src/Cleanup/Plain.antt =====
-- The links of the other threads in a cleanup.
use mathlib.Core.Path.{subst}
use msh.Prelude.{ℕ, ◌≡◌, ap, sym, Bool, false, ◌==◌, ok}
use msh.Memory.{PrimaryCtx, World, Loader}
use msh.NextMap.Plain.{IsPlain}
use msh.Schedule.Plain.{sched_next_crt-IsPlain}
use msh.Cleanup.{Control, world_of, after_setjmp, msh_cleanup}
use msh.Cleanup.Frame.{link_to_self_prim, reset_prim}
use msh.Cleanup.Kept.{IsKept, after_setjmp-kept, msh_cleanup-kept}

module _ (L : Loader) (t s : ℕ) (not_t : (t == s) ≡ false) where
  IsPlain-IsKept : IsKept L t (λ w w'. IsPlain (w.prim s).ycs → IsPlain (w'.prim s).ycs)
  IsPlain-IsKept = record {
    same = λ w plain. plain;
    chain = λ a b plain. b (a plain);
    link =
        λ w. subst IsPlain (ap (λ (c : PrimaryCtx). c.ycs) (sym (link_to_self_prim L t s not_t w)));
    reset = λ w. subst IsPlain (ap (λ (c : PrimaryCtx). c.ycs) (sym (reset_prim L t s not_t w)));
    next = sched_next_crt-IsPlain L t s 0;
  }

  pub after_setjmp-IsPlain :
      (w : World) (c : Control)
      → after_setjmp L t w ≡ ok c
      → IsPlain (w.prim s).ycs
      → IsPlain ((world_of c).prim s).ycs
  after_setjmp-IsPlain = after_setjmp-kept IsPlain-IsKept

  pub msh_cleanup-IsPlain :
      (skip : Bool) (w : World) (c : Control)
      → msh_cleanup L t skip w ≡ ok c
      → IsPlain (w.prim s).ycs
      → IsPlain ((world_of c).prim s).ycs
  msh_cleanup-IsPlain = msh_cleanup-kept IsPlain-IsKept
