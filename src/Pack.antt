-- ===== src/Pack.antt =====
-- libmsh/msh.c: `tl_swap_crts` and `tl_pack_crts`, which close the holes that finished scavengers
-- leave in the list of a thread. Code that runs on thread `t` has `gsbase` at `PRIM_TABLE[t]`.
pub mod Swap
pub mod Hosted
pub mod Packing
pub mod Loop
pub mod Kept
pub mod Frame
pub mod Plain
use msh.Prelude.{
  ℕ, zero, suc, ◌+◌, ◌-◌, ◌==◌, if◌then◌else◌, update, for_each, Option, none, some, ℤ, pos, is_pos,
  is_minus_one, first_pos, Outcome, ok, ◌>>=◌,
}
use msh.Memory.{
  max_crt_per_thread, YieldCtx, PrimaryCtx, World, put_prim, yield_ptr, set_scav_yc, Loader,
}
use msh.IdxList.{occupied}
use msh.NextMap.{set_special_next}
use msh.Hosting.{idx_at}
use msh.Symbols.{move_symbol}

-- The body of the loop under "update next map". `normal_next` is an offset, and is compared with
-- positions.
abbrev pub retarget : ℕ → ℕ → YieldCtx → YieldCtx
retarget a b yc =
    if is_pos yc.normal_next a
    then record yc { normal_next = pos b }
    else if is_pos yc.normal_next b
    then record yc { normal_next = pos a }
    else yc

-- The thread's own part of `tl_swap_crts`: the indices, the yield contexts, the registers.
pub swap_ctx : ℕ → ℕ → PrimaryCtx → PrimaryCtx
swap_ctx a b c = record c {
  idx_list = update (update c.idx_list a (c.idx_list b)) b (c.idx_list a);
  ycs =
      for_each (max_crt_per_thread + 1) 0 (λ p. retarget a b)
        (update (update c.ycs a (c.ycs b)) b (c.ycs a));
  regs = update (update c.regs a (c.regs b)) b (c.regs a);
}

-- All of `tl_swap_crts` but the symbols.
pub swap_tables : ℕ → ℕ → ℕ → World → World
unfolding swap_ctx set_scav_yc
swap_tables t a b w =
    set_scav_yc (idx_at w t b) (yield_ptr t a)
      (set_scav_yc (idx_at w t a) (yield_ptr t b) (put_prim t (swap_ctx a b (w.prim t)) w))

module _ (L : Loader) where
  -- `tl_swap_crts`
  pub swap_crts : ℕ → ℕ → ℕ → World → Outcome World
  swap_crts t a b w =
      move_symbol L (idx_at w t a) b (swap_tables t a b w) >>= move_symbol L (idx_at w t b) a

  -- One round of the loop of `tl_pack_crts`: a hole at `p` takes the next scavenger above it.
  pub pack_at : ℕ → ℕ → World → Outcome World
  unfolding swap_crts
  pack_at t p w = elim (idx_at w t p) [
    | some i ↦ ok w
    | none ↦ elim (first_pos (occupied (w.prim t).idx_list) (max_crt_per_thread - p) (p + 1)) [
      | none ↦ ok w
      | some q ↦ swap_crts t p q w
    ]
  ]

  pub pack_from : ℕ → ℕ → ℕ → World → Outcome World
  unfolding pack_at
  pack_from t zero p w = ok w
  pack_from t (suc n) p w = pack_at t p w >>= pack_from t n (p + 1)

  -- `tl_pack_crts`
  unfoldable pub pack_crts : ℕ → World → Outcome World
  unfolding pack_from
  pack_crts t w =
      if is_minus_one ((w.prim t).ycs 0).normal_next
      then ok w
      else pack_from t max_crt_per_thread 1 w >>= λ w'.
          ok (put_prim t (set_special_next (w'.prim t)) w')
