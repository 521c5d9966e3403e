-- ===== src/Realloc/Primary.antt =====
-- The primaries after `realloc_scav`.
use mathlib.Core.Path.{subst}
use msh.Prelude.{ℕ, ◌≡◌, ◌≤◌, refl, ap, sym, some, ok, arith}
use msh.Memory.{YieldCtx, Block, PrimaryCtx, World, put_prim, Loader}
use msh.IdxList.{IdxList}
use msh.NextMap.Primary.{IsRunning, put_prim-IsRunning}
use msh.Symbols.Frame.{move_symbol_prim}
use msh.Realloc.{give, adopt, realloc_scav}
use msh.Realloc.Kept.{handed_over, finish_move_ycs, rollback_ycs, IsKept, realloc_scav-kept}

-- The donor's primary is not at the position that it gives away, and the taker's is pointed at its
-- first scavenger.
give-IsRunning : (p : ℕ) (c : PrimaryCtx) → 1 ≤ p → IsRunning c.ycs → IsRunning (give p c).ycs
give-IsRunning p c lo runs = ground arith

adopt_runs :
    (q : ℕ) (yc : YieldCtx) (regs : Block) (c : PrimaryCtx) → IsRunning (adopt q yc regs c).ycs
unfolding adopt
adopt_runs q yc regs c = refl

module _ (L : Loader) (f t s : ℕ) where
  handed_over-IsRunning :
      (p q : ℕ) (l m : IdxList) (w : World)
      → 1 ≤ p
      → IsRunning (w.prim s).ycs
      → IsRunning ((handed_over f t p q l m w).prim s).ycs
  unfolding handed_over
  handed_over-IsRunning p q l m w lo runs =
      let from = record (w.prim f) { idx_list = l } in
      put_prim-IsRunning t s
        (adopt q (from.ycs p) (from.regs p) (record (w.prim t) { idx_list = m }))
        (put_prim f (give p from) w)
        (λ here. adopt_runs q (from.ycs p) (from.regs p) (record (w.prim t) { idx_list = m }))
        (put_prim-IsRunning f s (give p from) w
          (λ here. give-IsRunning p from lo (subst (λ r. IsRunning (w.prim r).ycs) (sym here) runs))
          runs)

  IsRunning-IsKept : IsKept L f t (λ w w'. IsRunning (w.prim s).ycs → IsRunning (w'.prim s).ycs)
  IsRunning-IsKept = record {
    same = λ w runs. runs;
    chain = λ a b runs. b (a runs);
    rollback = λ l w. subst IsRunning (rollback_ycs f s l w);
    hand = handed_over-IsRunning;
    symbol = λ i q w w' e.
        subst IsRunning
          (ap (λ (c : ℕ → PrimaryCtx). (c s).ycs) (sym (move_symbol_prim L (some i) q w w' e)));
    finish = λ q i w. subst IsRunning (finish_move_ycs f t s q i w);
  }

  -- A primary that runs goes on running, whoever hosts what.
  pub realloc_scav-IsRunning :
      (n ret r : ℕ) (w w' : World)
      → realloc_scav L f t n ret w ≡ ok (r, w')
      → IsRunning (w.prim s).ycs
      → IsRunning (w'.prim s).ycs
  realloc_scav-IsRunning = realloc_scav-kept IsRunning-IsKept
