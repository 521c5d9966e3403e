-- ===== src/Allocate/Primary.antt =====
-- The primaries after an allocation.
use mathlib.Core.Path.{subst}
use msh.Prelude.{ℕ, ◌≡◌, sym, true, false, ok, arith}
use msh.Memory.{World, Loader}
use msh.IdxList.{IdxList}
use msh.NextMap.{set_special_next}
use msh.NextMap.Primary.{IsRunning, set_special_next-IsRunning, put_prim-IsRunning}
use msh.Symbols.Frame.{set_scav_symbol-SameTables}
use msh.Realloc.{realloc_scav}
use msh.Realloc.Primary.{realloc_scav-IsRunning}
use msh.Allocate.{set_flag, init_at, allocate_scav}
use msh.Allocate.Kept.{set_up, IsKept, allocate_scav-kept}
use msh.Allocate.Donors.{set_flag_ycs}

module _ (L : Loader) (t s : ℕ) where
  set_up-IsRunning :
      (i p : ℕ) (m : IdxList) (w : World)
      → IsRunning (w.prim s).ycs
      → IsRunning ((set_up L t i p m w).prim s).ycs
  unfolding set_up
  set_up-IsRunning i p m w runs = ground arith

  -- The links come back behind `init`.
  init_at-IsRunning :
      (p : ℕ) (w : World) → IsRunning (w.prim s).ycs → IsRunning ((init_at L t p w).prim s).ycs
  unfolding init_at
  init_at-IsRunning p w runs = ground arith

  taken-IsRunning :
      (k demands cnt : ℕ) (w v : World)
      → (w.prim k).reallocatable ≡ true
      → realloc_scav L k t demands 0 (set_flag k false w) ≡ ok (cnt, v)
      → IsRunning (w.prim s).ycs
      → IsRunning ((set_flag k true v).prim s).ycs
  taken-IsRunning k demands cnt w v up taken runs =
      subst IsRunning (sym (set_flag_ycs k true v s)) (
        realloc_scav-IsRunning L k t s demands 0 cnt (set_flag k false w) v taken
          (subst IsRunning (sym (set_flag_ycs k false w s)) runs))

  IsRunning-IsKept : IsKept L t (λ w w'. IsRunning (w.prim s).ycs → IsRunning (w'.prim s).ycs)
  IsRunning-IsKept = record {
    same = λ w runs. runs;
    chain = λ a b runs. b (a runs);
    taken = taken-IsRunning;
    new = set_up-IsRunning;
    symbols =
        λ i p w w' e. subst IsRunning (sym ((set_scav_symbol-SameTables L t i p w w' e).ycs s));
    owned = λ i p w runs. runs;
    init = init_at-IsRunning;
    special = λ w runs.
        put_prim-IsRunning t s (set_special_next (w.prim t)) w
          (λ here.
            set_special_next-IsRunning (w.prim t)
              (subst (λ r. IsRunning (w.prim r).ycs) (sym here) runs))
          runs;
  }

  -- A primary that runs goes on running.
  pub allocate_scav-IsRunning :
      (r : ℕ) (w w' : World)
      → allocate_scav L t w ≡ ok (r, w')
      → IsRunning (w.prim s).ycs
      → IsRunning (w'.prim s).ycs
  allocate_scav-IsRunning = allocate_scav-kept IsRunning-IsKept
