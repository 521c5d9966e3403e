-- ===== src/Pack/Hosted.antt =====
-- One call of `tl_swap_crts` over a hole, whole.
use msh.Prelude.{
  ℕ, suc, ◌+◌, ◌<◌, ◌≤◌, ◌≡◌, refl, ap, ◌∙◌, update, for_each_in, none, some, ok, arith,
}
use msh.Memory.{
  max_crt_per_thread, YieldCtx, PrimaryCtx, World, set_scav_yc, Loader, Block, crt_pos,
}
use msh.NextMap.{has_next}
use msh.Hosting.{idx_at, IsHosting}
use msh.Hosting.Steps.{Transfer, Transfer-Same}
use msh.Symbols.{move_symbol}
use msh.Symbols.Frame.{
  SameTables, SameTables-Same, IsLinked, IsLinked-handle, move_symbol-SameTables,
  move_symbol_returns, move_symbol-ints, move_symbol-none,
}
use msh.Pack.{retarget, swap_ctx, swap_tables, swap_crts}
use msh.Pack.Swap.{swap_tables-Transfer, strays-swap_tables, has_next-swap_ctx}

-- What stays of the other scavengers' and the primary's state.
pub record Moved (t a b i : ℕ) (w w' : World) : Type 0 where
  pub transfer : Transfer w w' t b t a i
  pub strays : w'.strays ≡ suc w.strays
  pub primary_sp : ((w'.prim t).ycs 0).sp ≡ ((w.prim t).ycs 0).sp
  pub primary_ip : ((w'.prim t).ycs 0).ip ≡ ((w.prim t).ycs 0).ip
  pub primary_runs : has_next (w'.prim t).ycs 0 ≡ has_next (w.prim t).ycs 0
  pub moved_sp : ((w'.prim t).ycs a).sp ≡ ((w.prim t).ycs b).sp
  pub moved_ip : ((w'.prim t).ycs a).ip ≡ ((w.prim t).ycs b).ip
  pub moved_regs : (w'.prim t).regs a ≡ (w.prim t).regs b
  pub flags : (s : ℕ) → (w'.prim s).reallocatable ≡ (w.prim s).reallocatable

ycs-swap_ctx :
    (a b p : ℕ) (c : PrimaryCtx)
    → p ≤ max_crt_per_thread
    → (swap_ctx a b c).ycs p ≡ retarget a b (update (update c.ycs a (c.ycs b)) b (c.ycs a) p)
unfolding swap_ctx
ycs-swap_ctx a b p c h =
    for_each_in (max_crt_per_thread + 1) 0 (λ q. retarget a b) _ p (omega arith) (omega arith)

retarget-sp :
    (a b : ℕ) (yc : YieldCtx) → ((retarget a b yc).sp ≡ yc.sp) × ((retarget a b yc).ip ≡ yc.ip)
retarget-sp a b yc = ground arith

regs-swap_ctx : (a b : ℕ) (c : PrimaryCtx) → a < b → (swap_ctx a b c).regs a ≡ c.regs b
unfolding swap_ctx
regs-swap_ctx a b c h = ground arith

flag-swap_ctx : (a b : ℕ) (c : PrimaryCtx) → (swap_ctx a b c).reallocatable ≡ c.reallocatable
unfolding swap_ctx
flag-swap_ctx a b c = refl

module _ (t a b i : ℕ) (w : World) (lo : 1 ≤ a) (mid : a < b) (hi : b ≤ max_crt_per_thread)
    (h : IsHosting w) (hole : idx_at w t a ≡ none) (was : idx_at w t b ≡ some i) where
  swap_tables-prim : (swap_tables t a b w).prim ≡ update w.prim t (swap_ctx a b (w.prim t))
  unfolding swap_tables
  swap_tables-prim = rw (hole, was, set_scav_yc) refl

  swap_tables-Moved : Moved t a b i w (swap_tables t a b w)
  swap_tables-Moved = record {
    transfer =
        swap_tables-Transfer t a b i w (omega arith) hole was
          (ground (arith, h.live t a lo (omega arith)))
          (ground (arith, h.live t b (omega arith) hi));
    strays = strays-swap_tables t a b i w (omega arith) hole was;
    primary_sp =
        rw swap_tables-prim
          (ground (arith, ycs-swap_ctx a b 0 (w.prim t), retarget-sp a b ((w.prim t).ycs 0)));
    primary_ip =
        rw swap_tables-prim
          (ground (arith, ycs-swap_ctx a b 0 (w.prim t), retarget-sp a b ((w.prim t).ycs 0)));
    primary_runs = rw swap_tables-prim (ground (arith, has_next-swap_ctx a b 0 (w.prim t)));
    moved_sp =
        rw swap_tables-prim
          (ground (arith, ycs-swap_ctx a b a (w.prim t), retarget-sp a b ((w.prim t).ycs b)));
    moved_ip =
        rw swap_tables-prim
          (ground (arith, ycs-swap_ctx a b a (w.prim t), retarget-sp a b ((w.prim t).ycs b)));
    moved_regs = rw swap_tables-prim (ground (arith, regs-swap_ctx a b (w.prim t)));
    flags = λ s. rw swap_tables-prim (ground (arith, flag-swap_ctx a b (w.prim t)));
  }

Moved-SameTables :
    {t a b i : ℕ} {w w' w'' : World} → Moved t a b i w w' → SameTables w' w'' → Moved t a b i w w''
Moved-SameTables {t} {a} m e = record {
  transfer = Transfer-Same m.transfer (SameTables-Same e);
  strays = e.strays ∙ m.strays;
  primary_sp = ap (λ (y : ℕ → YieldCtx). (y 0).sp) (e.ycs t) ∙ m.primary_sp;
  primary_ip = ap (λ (y : ℕ → YieldCtx). (y 0).ip) (e.ycs t) ∙ m.primary_ip;
  primary_runs = ap (λ (y : ℕ → YieldCtx). has_next y 0) (e.ycs t) ∙ m.primary_runs;
  moved_sp = ap (λ (y : ℕ → YieldCtx). (y a).sp) (e.ycs t) ∙ m.moved_sp;
  moved_ip = ap (λ (y : ℕ → YieldCtx). (y a).ip) (e.ycs t) ∙ m.moved_ip;
  moved_regs = ap (λ (r : ℕ → Block). r a) (e.regs t) ∙ m.moved_regs;
  flags = λ s. e.reallocatable s ∙ m.flags s;
}

module _ (L : Loader) (t a b i : ℕ) (w : World) (lo : 1 ≤ a) (mid : a < b)
    (hi : b ≤ max_crt_per_thread) (h : IsHosting w) (linked : IsLinked L w)
    (hole : idx_at w t a ≡ none) (was : idx_at w t b ≡ some i) where
  tables : World
  tables = swap_tables t a b w

  moved : Moved t a b i w tables
  unfolding tables
  moved = swap_tables-Moved t a b i w lo mid hi h hole was

  swap_crts_step : swap_crts L t a b w ≡ move_symbol L (some i) a tables
  unfolding swap_crts tables
  swap_crts_step = rw (hole, was, move_symbol-none L b tables) refl

  -- In consistent tables with every object linked, a swap of a hole with a hosted position above it
  -- returns. It moves the scavenger with its context and registers down to the
  -- hole, leaves the primary's context, writes once in front of the scavenger table, and leaves the
  -- position itself in the scavenger's `crt_pos`.
  pub swap_crts_lem :
      (w' : World) × (swap_crts L t a b w ≡ ok w')
      × Moved t a b i w w'
      × ((g x : ℕ) → (w.scav i).lib_handle ≡ some g → L.dlsym g crt_pos ≡ some x → w'.ints x ≡ a)
  swap_crts_lem =
      let (g, has) = h.loaded t b i (omega arith) hi was in
      let (w', e) =
        move_symbol_returns L i a g tables (IsLinked-handle linked moved.transfer.handle)
          (moved.transfer.handle i ∙ has) in
      (
        w',
        swap_crts_step ∙ e,
        Moved-SameTables moved (move_symbol-SameTables L (some i) a tables w' e),
        λ g' x loaded has'.
            move_symbol-ints L i a g' x tables w' (moved.transfer.handle i ∙ loaded) has' e,
      )
