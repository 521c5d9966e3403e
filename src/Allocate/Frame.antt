-- ===== src/Allocate/Frame.antt =====
-- The contexts that an allocation writes.
use msh.Prelude.{ℕ, ◌≡◌, refl, ap, ◌∙◌, Bool, true, false, ◌==◌, ok, arith}
use msh.Memory.{PrimaryCtx, World, Loader}
use msh.IdxList.{IdxList}
use msh.Symbols.Frame.{set_scav_symbol_prim}
use msh.Realloc.{realloc_scav}
use msh.Realloc.Frame.{realloc_scav_prim}
use msh.Allocate.{set_flag, init_at, allocate_scav}
use msh.Allocate.Kept.{set_up, IsKept, allocate_scav-kept}

module _ (L : Loader) (t s : ℕ) (not_t : (t == s) ≡ false) where
  set_up_prim : (i p : ℕ) (m : IdxList) (w : World) → (set_up L t i p m w).prim s ≡ w.prim s
  unfolding set_up
  set_up_prim i p m w = ground arith

  init_at_prim : (p : ℕ) (w : World) → (init_at L t p w).prim s ≡ w.prim s
  unfolding init_at
  init_at_prim p w = ground arith

  set_flag_prim :
      (k : ℕ) (b : Bool) (w : World) → (k == s) ≡ false → (set_flag k b w).prim s ≡ w.prim s
  set_flag_prim k b w off = ground arith

  -- The thread `s` is not one from which may be taken.
  taken_prim :
      (k demands cnt : ℕ) (w v : World)
      → (w.prim k).reallocatable ≡ true
      → realloc_scav L k t demands 0 (set_flag k false w) ≡ ok (cnt, v)
      → (w.prim s).reallocatable ≡ false
      → (set_flag k true v).prim s ≡ w.prim s
  taken_prim k demands cnt w v up taken down =
      let off : (k == s) ≡ false = ground (arith, ap (λ j. (w.prim j).reallocatable)) in
      set_flag_prim k true v off
      ∙ realloc_scav_prim L k t s off not_t demands 0 cnt (set_flag k false w) v taken
      ∙ set_flag_prim k false w off

  context-IsKept : IsKept L t (λ w w'. (w.prim s).reallocatable ≡ false → w'.prim s ≡ w.prim s)
  context-IsKept = record {
    same = λ w down. refl;
    chain = λ a b down. b (ap (λ (c : PrimaryCtx). c.reallocatable) (a down) ∙ down) ∙ a down;
    taken = taken_prim;
    new = λ i p m w down. set_up_prim i p m w;
    symbols = λ i p w w' e down. set_scav_symbol_prim L t i p s w w' not_t e;
    owned = λ i p w down. refl;
    init = λ p w down. init_at_prim p w;
    special = λ w down. ground arith;
  }

  -- An allocation for thread `t` writes its own context, and those of threads whose flag is up.
  pub allocate_scav_prim :
      (r : ℕ) (w w' : World)
      → (w.prim s).reallocatable ≡ false
      → allocate_scav L t w ≡ ok (r, w')
      → w'.prim s ≡ w.prim s
  allocate_scav_prim r w w' down e = allocate_scav-kept context-IsKept r w w' e down
