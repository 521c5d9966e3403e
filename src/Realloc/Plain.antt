-- ===== src/Realloc/Plain.antt =====
-- The links after `realloc_scav`.
use mathlib.Core.Path.{subst}
use msh.Prelude.{ℕ, ◌≡◌, refl, ap, sym, some, ok}
use msh.Memory.{YieldCtx, Block, PrimaryCtx, World, put_prim, Loader}
use msh.IdxList.{IdxList}
use msh.NextMap.Plain.{
  IsPlain, IsPlain-update, IsPlain-primary, update_next_map-IsPlain, put_prim-IsPlain,
}
use msh.Symbols.Frame.{move_symbol_prim}
use msh.Realloc.{give, place, adopt, realloc_scav}
use msh.Realloc.Kept.{handed_over, finish_move_ycs, rollback_ycs, IsKept, realloc_scav-kept}

give-IsPlain : (p : ℕ) (c : PrimaryCtx) → IsPlain c.ycs → IsPlain (give p c).ycs
give-IsPlain p c = IsPlain-update c.ycs p _ (λ e. cc)

adopt-IsPlain :
    (q : ℕ) (yc : YieldCtx) (regs : Block) (c : PrimaryCtx)
    → IsPlain c.ycs
    → IsPlain (adopt q yc regs c).ycs
unfolding adopt
adopt-IsPlain q yc regs c plain =
    IsPlain-primary _ _
      (update_next_map-IsPlain (place q yc c) (IsPlain-update c.ycs q _ (λ e. refl) plain))

module _ (L : Loader) (f t s : ℕ) where
  handed_over-IsPlain :
      (p q : ℕ) (l m : IdxList) (w : World)
      → IsPlain (w.prim s).ycs
      → IsPlain ((handed_over f t p q l m w).prim s).ycs
  unfolding handed_over
  handed_over-IsPlain p q l m w plain =
      let from = record (w.prim f) { idx_list = l } in
      put_prim-IsPlain t s (adopt q (from.ycs p) (from.regs p) (record (w.prim t) { idx_list = m }))
        (put_prim f (give p from) w)
        (λ here.
          adopt-IsPlain q (from.ycs p) (from.regs p) (record (w.prim t) { idx_list = m })
            (subst (λ r. IsPlain (w.prim r).ycs) (sym here) plain))
        (put_prim-IsPlain f s (give p from) w
          (λ here. give-IsPlain p from (subst (λ r. IsPlain (w.prim r).ycs) (sym here) plain))
          plain)

  IsPlain-IsKept : IsKept L f t (λ w w'. IsPlain (w.prim s).ycs → IsPlain (w'.prim s).ycs)
  IsPlain-IsKept = record {
    same = λ w plain. plain;
    chain = λ a b plain. b (a plain);
    rollback = λ l w. subst IsPlain (rollback_ycs f s l w);
    hand = λ p q l m w lo. handed_over-IsPlain p q l m w;
    symbol = λ i q w w' e.
        subst IsPlain
          (ap (λ (c : ℕ → PrimaryCtx). (c s).ycs) (sym (move_symbol_prim L (some i) q w w' e)));
    finish = λ q i w. subst IsPlain (finish_move_ycs f t s q i w);
  }

  -- The links of every thread stay plain.
  pub realloc_scav-IsPlain :
      (n ret r : ℕ) (w w' : World)
      → realloc_scav L f t n ret w ≡ ok (r, w')
      → IsPlain (w.prim s).ycs
      → IsPlain (w'.prim s).ycs
  realloc_scav-IsPlain = realloc_scav-kept IsPlain-IsKept
