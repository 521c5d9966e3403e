-- ===== src/Pack/Swap.antt =====
-- `tl_swap_crts` with a hole at the lower position.
use msh.Prelude.{
  ℕ, suc, ◌+◌, ◌≡◌, ◌≢◌, inl, inr, ap, ◌∙◌, true, false, not, ltb, ◌==◌, if◌then◌else◌, update,
  for_each_in, for_each_ge, none, some, is_minus_one, Bool-cases, arith,
}
use msh.Memory.{max_crt_per_thread, YieldCtx, PrimaryCtx, World, yield_ptr}
use msh.NextMap.{has_next}
use msh.Hosting.{idx_at, runs_at, same_slot}
use msh.Hosting.Steps.{Transfer}
use msh.Pack.{retarget, swap_ctx, swap_tables}

has_next-retarget :
    (a b : ℕ) (yc : YieldCtx)
    → is_minus_one (retarget a b yc).normal_next ≡ is_minus_one yc.normal_next
has_next-retarget a b yc = ground arith

-- Beyond the array nothing is asked.
pub has_next-swap_ctx :
    (a b p : ℕ) (c : PrimaryCtx)
    → has_next (swap_ctx a b c).ycs p ≡ has_next (update (update c.ycs a (c.ycs b)) b (c.ycs a)) p
unfolding swap_ctx
has_next-swap_ctx a b p c = elim (Bool-cases (ltb p (max_crt_per_thread + 1))) [
  | inl e ↦
      ap (λ (y : YieldCtx). not (is_minus_one y.normal_next))
        (for_each_in (max_crt_per_thread + 1) 0 (λ q. retarget a b) ys p (omega arith)
          (ground arith))
      ∙ ap not (has_next-retarget a b (ys p))
  | inr e ↦
      ap (λ (y : YieldCtx). not (is_minus_one y.normal_next))
        (for_each_ge (max_crt_per_thread + 1) 0 (λ q. retarget a b) ys p (ground arith))
]
  where
    ys : ℕ → YieldCtx
    ys = update (update c.ycs a (c.ycs b)) b (c.ycs a)

-- What one table access says after the tables are swapped over a hole at `a`.
module _ (t a b i : ℕ) (w : World) (ne : a ≢ b) (hole : idx_at w t a ≡ none)
    (was : idx_at w t b ≡ some i) where
  swap_tables_idx :
      (s q : ℕ)
      → idx_at (swap_tables t a b w) s q
        ≡ (if same_slot t a s q then some i else if same_slot t b s q then none else idx_at w s q)
  unfolding swap_tables swap_ctx
  swap_tables_idx s q = ground (arith, hole, was)

  swap_tables_runs :
      (s q : ℕ)
      → has_next (w.prim t).ycs a ≡ false
      → has_next (w.prim t).ycs b ≡ true
      → runs_at (swap_tables t a b w) s q
        ≡ (if same_slot t a s q then true else if same_slot t b s q then false else runs_at w s q)
  unfolding swap_tables
  swap_tables_runs s q ha hb = ground (arith, hole, was, has_next-swap_ctx a b q (w.prim t))

  swap_tables_slot :
      (j : ℕ)
      → ((swap_tables t a b w).scav j).yc ≡ (if i == j then some (yield_ptr t a) else (w.scav j).yc)
  unfolding swap_tables
  swap_tables_slot j = ground (arith, hole, was)

  swap_tables_rest :
      (j : ℕ)
      → (((swap_tables t a b w).scav j).finished ≡ (w.scav j).finished)
        × (((swap_tables t a b w).scav j).lib_handle ≡ (w.scav j).lib_handle)
  unfolding swap_tables
  swap_tables_rest j = ground (arith, hole, was)

  -- The write to `SCAV_TABLE[-1]`.
  pub strays-swap_tables : (swap_tables t a b w).strays ≡ suc w.strays
  unfolding swap_tables
  strays-swap_tables = ground (arith, hole, was)

  pub swap_tables-Transfer :
      has_next (w.prim t).ycs a ≡ false
      → has_next (w.prim t).ycs b ≡ true
      → Transfer w (swap_tables t a b w) t b t a i
  swap_tables-Transfer ha hb = record {
    idx = swap_tables_idx;
    runs = λ s q lo. swap_tables_runs s q ha hb;
    slot = swap_tables_slot;
    finished = λ j. (swap_tables_rest j).0;
    handle = λ j. (swap_tables_rest j).1;
  }
