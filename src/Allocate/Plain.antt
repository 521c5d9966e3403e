-- ===== src/Allocate/Plain.antt =====
-- The links after an allocation.
use mathlib.Core.Path.{subst}
use msh.Prelude.{ℕ, ◌≡◌, sym, true, false, ok, arith}
use msh.Memory.{World, Loader}
use msh.IdxList.{IdxList}
use msh.NextMap.{set_special_next}
use msh.NextMap.Plain.{IsPlain, IsPlain-congr, set_special_next-IsPlain, put_prim-IsPlain}
use msh.Symbols.Frame.{set_scav_symbol-SameTables}
use msh.Realloc.{realloc_scav}
use msh.Realloc.Plain.{realloc_scav-IsPlain}
use msh.Allocate.{set_flag, init_at, allocate_scav}
use msh.Allocate.Kept.{set_up, IsKept, allocate_scav-kept}
use msh.Allocate.Donors.{set_flag_ycs}

module _ (L : Loader) (t s : ℕ) where
  -- The new context yields to the primary.
  set_up-IsPlain :
      (i p : ℕ) (m : IdxList) (w : World)
      → IsPlain (w.prim s).ycs
      → IsPlain ((set_up L t i p m w).prim s).ycs
  unfolding set_up
  set_up-IsPlain i p m w plain q lo hi runs = ground (arith, plain q lo hi)

  -- `init` runs on a context that yields to itself, and the links come back behind it.
  init_at_links :
      (p q : ℕ) (w : World)
      → (((init_at L t p w).prim s).ycs q).normal_next ≡ ((w.prim s).ycs q).normal_next
  unfolding init_at
  init_at_links p q w = ground arith

  taken-IsPlain :
      (k demands cnt : ℕ) (w v : World)
      → (w.prim k).reallocatable ≡ true
      → realloc_scav L k t demands 0 (set_flag k false w) ≡ ok (cnt, v)
      → IsPlain (w.prim s).ycs
      → IsPlain ((set_flag k true v).prim s).ycs
  taken-IsPlain k demands cnt w v up taken plain = subst IsPlain (sym (set_flag_ycs k true v s)) (
      realloc_scav-IsPlain L k t s demands 0 cnt (set_flag k false w) v taken
        (subst IsPlain (sym (set_flag_ycs k false w s)) plain))

  IsPlain-IsKept : IsKept L t (λ w w'. IsPlain (w.prim s).ycs → IsPlain (w'.prim s).ycs)
  IsPlain-IsKept = record {
    same = λ w plain. plain;
    chain = λ a b plain. b (a plain);
    taken = taken-IsPlain;
    new = set_up-IsPlain;
    symbols = λ i p w w' e. subst IsPlain (sym ((set_scav_symbol-SameTables L t i p w w' e).ycs s));
    owned = λ i p w plain. plain;
    init = λ p w.
        IsPlain-congr (w.prim s).ycs ((init_at L t p w).prim s).ycs (λ q lo. init_at_links p q w);
    special = λ w plain.
        put_prim-IsPlain t s (set_special_next (w.prim t)) w
          (λ here.
            set_special_next-IsPlain (w.prim t)
              (subst (λ r. IsPlain (w.prim r).ycs) (sym here) plain))
          plain;
  }

  -- The links of every thread stay plain.
  pub allocate_scav-IsPlain :
      (r : ℕ) (w w' : World)
      → allocate_scav L t w ≡ ok (r, w')
      → IsPlain (w.prim s).ycs
      → IsPlain (w'.prim s).ycs
  allocate_scav-IsPlain = allocate_scav-kept IsPlain-IsKept
