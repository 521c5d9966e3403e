-- ===== src/Cleanup/Primary.antt =====
-- The primaries of the other threads in a cleanup.
use mathlib.Core.Path.{subst}
use msh.Prelude.{ℕ, ◌≡◌, ap, sym, Bool, false, ◌==◌, ok}
use msh.Memory.{PrimaryCtx, World, Loader}
use msh.NextMap.Primary.{IsRunning}
use msh.Schedule.Primary.{sched_next_crt-IsRunning}
use msh.Cleanup.{Control, world_of, after_setjmp, msh_cleanup}
use msh.Cleanup.Frame.{link_to_self_prim, reset_prim}
use msh.Cleanup.Kept.{IsKept, after_setjmp-kept, msh_cleanup-kept}

module _ (L : Loader) (t s : ℕ) (not_t : (t == s) ≡ false) where
  IsRunning-IsKept : IsKept L t (λ w w'. IsRunning (w.prim s).ycs → IsRunning (w'.prim s).ycs)
  IsRunning-IsKept = record {
    same = λ w runs. runs;
    chain = λ a b runs. b (a runs);
    link = λ w.
        subst IsRunning (ap (λ (c : PrimaryCtx). c.ycs) (sym (link_to_self_prim L t s not_t w)));
    reset = λ w. subst IsRunning (ap (λ (c : PrimaryCtx). c.ycs) (sym (reset_prim L t s not_t w)));
    next = sched_next_crt-IsRunning L t s not_t 0;
  }

  pub after_setjmp-IsRunning :
      (w : World) (c : Control)
      → after_setjmp L t w ≡ ok c
      → IsRunning (w.prim s).ycs
      → IsRunning ((world_of c).prim s).ycs
  after_setjmp-IsRunning = after_setjmp-kept IsRunning-IsKept

  pub msh_cleanup-IsRunning :
      (skip : Bool) (w : World) (c : Control)
      → msh_cleanup L t skip w ≡ ok c
      → IsRunning (w.prim s).ycs
      → IsRunning ((world_of c).prim s).ycs
  msh_cleanup-IsRunning = msh_cleanup-kept IsRunning-IsKept
