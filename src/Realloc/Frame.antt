-- ===== src/Realloc/Frame.antt =====
-- The contexts that `realloc_scav` writes.
use msh.Prelude.{ℕ, ◌≡◌, refl, ap, ◌∙◌, false, ◌==◌, some, ok, arith}
use msh.Memory.{PrimaryCtx, World, Loader}
use msh.IdxList.{IdxList}
use msh.Symbols.Frame.{move_symbol_prim}
use msh.Realloc.{finish_move, realloc_scav}
use msh.Realloc.Kept.{handed_over, IsKept, realloc_scav-kept}

-- Another context is not touched when a scavenger is handed over.
module _ (L : Loader) (f t s : ℕ) (not_f : (f == s) ≡ false) (not_t : (t == s) ≡ false) where
  handed_over_prim :
      (p q : ℕ) (l m : IdxList) (w : World) → (handed_over f t p q l m w).prim s ≡ w.prim s
  unfolding handed_over
  handed_over_prim p q l m w = ground arith

  finish_move_prim : (q i : ℕ) (w : World) → (finish_move f t q i w).prim s ≡ w.prim s
  unfolding finish_move
  finish_move_prim q i w = ground arith

  context-IsKept : IsKept L f t (λ w w'. w'.prim s ≡ w.prim s)
  context-IsKept = record {
    same = λ w. refl;
    chain = λ a b. b ∙ a;
    rollback = λ l w. ground arith;
    hand = λ p q l m w lo. handed_over_prim p q l m w;
    symbol = λ i q w w' e. ap (λ (c : ℕ → PrimaryCtx). c s) (move_symbol_prim L (some i) q w w' e);
    finish = finish_move_prim;
  }

  -- Only the contexts of the two threads are written.
  pub realloc_scav_prim :
      (n ret r : ℕ) (w w' : World) → realloc_scav L f t n ret w ≡ ok (r, w') → w'.prim s ≡ w.prim s
  realloc_scav_prim = realloc_scav-kept context-IsKept
