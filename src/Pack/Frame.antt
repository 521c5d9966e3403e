-- ===== src/Pack/Frame.antt =====
-- The contexts that packing writes.
use msh.Prelude.{ℕ, ◌≡◌, refl, ap, ◌∙◌, false, ◌==◌, ok, arith}
use msh.Memory.{PrimaryCtx, World, set_scav_yc, Loader}
use msh.Symbols.Frame.{move_symbol_prim}
use msh.Pack.{swap_tables, pack_crts}
use msh.Pack.Kept.{IsKept, pack_crts-kept}

module _ (L : Loader) (t s : ℕ) (not_t : (t == s) ≡ false) where
  swap_tables_prim : (a b : ℕ) (w : World) → (swap_tables t a b w).prim s ≡ w.prim s
  unfolding swap_tables set_scav_yc
  swap_tables_prim a b w = ground arith

  context-IsKept : IsKept L t (λ w w'. w'.prim s ≡ w.prim s)
  context-IsKept = record {
    same = λ w. refl;
    chain = λ a b. b ∙ a;
    swap = λ a b w lo mid hi. swap_tables_prim a b w;
    symbol = λ x q w w' e. ap (λ (c : ℕ → PrimaryCtx). c s) (move_symbol_prim L x q w w' e);
    special = λ w. ground arith;
  }

  -- Packing writes the context of the thread alone.
  pub pack_crts_prim : (w w' : World) → pack_crts L t w ≡ ok w' → w'.prim s ≡ w.prim s
  pack_crts_prim = pack_crts-kept context-IsKept
