-- ===== src/Schedule/Primary.antt =====
-- The primaries after a return through the scheduler.
use mathlib.Core.Path.{subst}
use msh.Prelude.{ℕ, ◌≡◌, sym, false, ◌==◌, ok}
use msh.Memory.{PrimaryCtx, World, Loader}
use msh.NextMap.{update_next_map}
use msh.NextMap.Primary.{IsRunning, update_next_map-IsRunning, put_prim-IsRunning}
use msh.Pack.Frame.{pack_crts_prim}
use msh.Allocate.Primary.{allocate_scav-IsRunning}
use msh.Finish.{finish_crt}
use msh.Schedule.{Switch, update_map, sched_next_crt}
use msh.Schedule.Frame.{finish_crt_prim}
use msh.Schedule.Kept.{IsKept, sched_next_crt-kept}

pub update_map-IsRunning :
    (L : Loader) (t s : ℕ) (w : World)
    → IsRunning (w.prim s).ycs
    → IsRunning ((update_map t w).prim s).ycs
update_map-IsRunning L t s w runs =
    put_prim-IsRunning t s (update_next_map (w.prim t)) w
      (λ here.
        update_next_map-IsRunning (w.prim t)
          (subst (λ r. IsRunning (w.prim r).ycs) (sym here) runs))
      runs

module _ (L : Loader) (t s : ℕ) (not_t : (t == s) ≡ false) where
  -- A context that is as before.
  same-IsRunning :
      (w w' : World) → w'.prim s ≡ w.prim s → IsRunning (w.prim s).ycs → IsRunning (w'.prim s).ycs
  same-IsRunning w w' e = subst (λ (c : PrimaryCtx). IsRunning c.ycs) (sym e)

  IsRunning-IsKept : IsKept L t (λ w w'. IsRunning (w.prim s).ycs → IsRunning (w'.prim s).ycs)
  IsRunning-IsKept = record {
    same = λ w runs. runs;
    chain = λ a b runs. b (a runs);
    count = λ w runs. runs;
    finish = λ p w. same-IsRunning w (finish_crt t p w) (finish_crt_prim L t s not_t p w);
    map = update_map-IsRunning L t s;
    pack = λ w w' e. same-IsRunning w w' (pack_crts_prim L t s not_t w w' e);
    allocate = allocate_scav-IsRunning L t s;
    jump = λ f w runs. runs;
  }

  -- The primaries of the other threads go on running.
  pub sched_next_crt-IsRunning :
      (ret : ℕ) (w w' : World) (to : Switch)
      → sched_next_crt L t ret w ≡ ok (to, w')
      → IsRunning (w.prim s).ycs
      → IsRunning (w'.prim s).ycs
  sched_next_crt-IsRunning = sched_next_crt-kept IsRunning-IsKept
