-- ===== src/Pack/Plain.antt =====
-- The links after packing.
use mathlib.Core.Path.{subst}
use msh.Prelude.{
  ℕ, ◌+◌, ◌<◌, ◌≤◌, ◌≡◌, inl, inr, ap, ◌∙◌, sym, false, update, for_each_in, is_minus_one, pos, ok,
  Bool-cases, arith,
}
use msh.Memory.{max_crt_per_thread, YieldCtx, PrimaryCtx, World, put_prim, set_scav_yc, Loader}
use msh.NextMap.{set_special_next}
use msh.NextMap.Plain.{IsPlain, set_special_next-IsPlain, put_prim-IsPlain}
use msh.Symbols.Frame.{move_symbol_prim}
use msh.Pack.{retarget, swap_ctx, swap_tables, pack_crts}
use msh.Pack.Kept.{IsKept, pack_crts-kept}

-- A link to the primary, and the mark, are no position that is swapped.
retarget_plain :
    (a b : ℕ) (yc : YieldCtx)
    → 1 ≤ a
    → 1 ≤ b
    → (is_minus_one yc.normal_next ≡ false → yc.normal_next ≡ pos 0)
    → is_minus_one (retarget a b yc).normal_next ≡ false
    → (retarget a b yc).normal_next ≡ pos 0
retarget_plain a b yc lo lo' plain = elim (Bool-cases (is_minus_one yc.normal_next)) [
  | inl over ↦ ground arith
  | inr runs ↦ ground (arith, plain runs)
]

swap_ctx-IsPlain :
    (a b : ℕ) (c : PrimaryCtx)
    → 1 ≤ a
    → a < b
    → b ≤ max_crt_per_thread
    → IsPlain c.ycs
    → IsPlain (swap_ctx a b c).ycs
unfolding swap_ctx
swap_ctx-IsPlain a b c lo mid hi plain p lo' hi' runs =
    same
    ∙ retarget_plain a b (ys p) lo (omega arith) swapped
        (ground (arith, ap is_minus_one same, runs))
  where
    ys : ℕ → YieldCtx
    ys = update (update c.ycs a (c.ycs b)) b (c.ycs a)

    same : ((swap_ctx a b c).ycs p).normal_next ≡ (retarget a b (ys p)).normal_next
    same =
        ap (λ (y : YieldCtx). y.normal_next)
          (for_each_in (max_crt_per_thread + 1) 0 (λ q. retarget a b) ys p (omega arith)
            (omega arith))

    swapped : is_minus_one (ys p).normal_next ≡ false → (ys p).normal_next ≡ pos 0
    swapped e = ground (arith, plain p lo' hi', plain a lo (omega arith), plain b (omega arith) hi)

module _ (L : Loader) (t s : ℕ) where
  swap_tables_ycs :
      (a b : ℕ) (w : World)
      → ((put_prim t (swap_ctx a b (w.prim t)) w).prim s).ycs ≡ ((swap_tables t a b w).prim s).ycs
  unfolding swap_tables set_scav_yc
  swap_tables_ycs a b w = ground arith

  IsPlain-IsKept : IsKept L t (λ w w'. IsPlain (w.prim s).ycs → IsPlain (w'.prim s).ycs)
  IsPlain-IsKept = record {
    same = λ w plain. plain;
    chain = λ a b plain. b (a plain);
    swap = λ a b w lo mid hi plain. subst IsPlain (swap_tables_ycs a b w) (
        put_prim-IsPlain t s (swap_ctx a b (w.prim t)) w
          (λ here.
            swap_ctx-IsPlain a b (w.prim t) lo mid hi
              (subst (λ r. IsPlain (w.prim r).ycs) (sym here) plain))
          plain);
    symbol = λ x q w w' e.
        subst IsPlain
          (ap (λ (c : ℕ → PrimaryCtx). (c s).ycs) (sym (move_symbol_prim L x q w w' e)));
    special = λ w plain.
        put_prim-IsPlain t s (set_special_next (w.prim t)) w
          (λ here.
            set_special_next-IsPlain (w.prim t)
              (subst (λ r. IsPlain (w.prim r).ycs) (sym here) plain))
          plain;
  }

  -- The links of every thread stay plain.
  pub pack_crts-IsPlain :
      (w w' : World) → pack_crts L t w ≡ ok w' → IsPlain (w.prim s).ycs → IsPlain (w'.prim s).ycs
  pack_crts-IsPlain = pack_crts-kept IsPlain-IsKept
