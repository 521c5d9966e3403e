-- ===== src/Schedule/Plain.antt =====
-- The links after a return through the scheduler.
use mathlib.Core.Path.{subst}
use msh.Prelude.{ℕ, ◌≡◌, sym, ok, arith}
use msh.Memory.{World, Loader}
use msh.NextMap.{update_next_map}
use msh.NextMap.Plain.{IsPlain, update_next_map-IsPlain, put_prim-IsPlain}
use msh.Finish.{finish_crt}
use msh.Pack.Plain.{pack_crts-IsPlain}
use msh.Allocate.Plain.{allocate_scav-IsPlain}
use msh.Schedule.{Switch, update_map, sched_next_crt}
use msh.Schedule.Kept.{IsKept, sched_next_crt-kept}

module _ (L : Loader) (t s : ℕ) where
  pub update_map-IsPlain :
      (w : World) → IsPlain (w.prim s).ycs → IsPlain ((update_map t w).prim s).ycs
  update_map-IsPlain w plain =
      put_prim-IsPlain t s (update_next_map (w.prim t)) w
        (λ here.
          update_next_map-IsPlain (w.prim t) (subst (λ r. IsPlain (w.prim r).ycs) (sym here) plain))
        plain

  -- A position that has finished has the mark.
  finish_crt-IsPlain :
      (p : ℕ) (w : World) → IsPlain (w.prim s).ycs → IsPlain ((finish_crt t p w).prim s).ycs
  unfolding finish_crt
  finish_crt-IsPlain p w plain q lo hi runs = ground (arith, plain q lo hi)

  IsPlain-IsKept : IsKept L t (λ w w'. IsPlain (w.prim s).ycs → IsPlain (w'.prim s).ycs)
  IsPlain-IsKept = record {
    same = λ w plain. plain;
    chain = λ a b plain. b (a plain);
    count = λ w plain. plain;
    finish = finish_crt-IsPlain;
    map = update_map-IsPlain;
    pack = pack_crts-IsPlain L t s;
    allocate = allocate_scav-IsPlain L t s;
    jump = λ f w plain. plain;
  }

  -- The links of every thread stay plain.
  pub sched_next_crt-IsPlain :
      (ret : ℕ) (w w' : World) (to : Switch)
      → sched_next_crt L t ret w ≡ ok (to, w')
      → IsPlain (w.prim s).ycs
      → IsPlain (w'.prim s).ycs
  sched_next_crt-IsPlain = sched_next_crt-kept IsPlain-IsKept
