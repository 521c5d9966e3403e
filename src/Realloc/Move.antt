-- ===== src/Realloc/Move.antt =====
-- One scavenger that `realloc_scav` takes over.
use msh.Prelude.{
  ℕ, ◌≤◌, ◌≡◌, ◌≢◌, refl, ap, true, ◌==◌, if◌then◌else◌, update, update_self, none, some, pos,
  arith,
}
use msh.Memory.{sizeof_yield_ctx, YieldCtx, PrimaryCtx, Block, World, put_prim}
use msh.IdxList.{IdxList}
use msh.NextMap.{has_next, update_next_map}
use msh.NextMap.Available.{update_next_map_ne, update_next_map_rest, idx_list-update_next_map}
use msh.Hosting.Steps.{Transfer}
use msh.Realloc.{give, place, adopt, finish_move}

module _ (q : ℕ) (yc : YieldCtx) (regs : Block) (to : PrimaryCtx) (lo : 1 ≤ q) where
  pub idx_list-adopt : (adopt q yc regs to).idx_list ≡ to.idx_list
  unfolding adopt
  idx_list-adopt = idx_list-update_next_map _

  pub has_next-adopt :
      (r : ℕ)
      → 1 ≤ r
      → has_next (adopt q yc regs to).ycs r ≡ (if q == r then true else has_next to.ycs r)
  unfolding adopt
  has_next-adopt r lo' = ground (arith, update_next_map_ne (place q yc to) r lo')

  -- The primary's saved context stays, its link leads to the first position, and the flag is kept.
  pub record Adopted (c : PrimaryCtx) : Type 0 where
    pub sp : (c.ycs 0).sp ≡ (to.ycs 0).sp
    pub ip : (c.ycs 0).ip ≡ (to.ycs 0).ip
    pub next : (c.ycs 0).normal_next ≡ pos sizeof_yield_ctx
    pub flag : c.reallocatable ≡ to.reallocatable
    pub moved_sp : (c.ycs q).sp ≡ yc.sp
    pub moved_ip : (c.ycs q).ip ≡ yc.ip
    pub moved_regs : c.regs q ≡ regs

  pub adopt-Adopted : Adopted (adopt q yc regs to)
  unfolding adopt
  adopt-Adopted = record {
    sp = ground (arith, update_next_map_rest (place q yc to));
    ip = ground (arith, update_next_map_rest (place q yc to));
    next = refl;
    flag = ground (arith, update_next_map_rest (place q yc to));
    moved_sp = ground (arith, update_next_map_ne (place q yc to) q lo);
    moved_ip = ground (arith, update_next_map_ne (place q yc to) q lo);
    moved_regs = update_self (update_next_map (place q yc to)).regs q regs;
  }

-- The tables when scavenger `i` goes from `p` of `f` to `q` of `t`, before its symbol is written.
abbrev pub handed_over : ℕ → ℕ → ℕ → ℕ → ℕ → World → World
handed_over f p t q i w =
    let from = record (w.prim f) { idx_list = update (w.prim f).idx_list p none } in
    let to = record (w.prim t) { idx_list = update (w.prim t).idx_list q (some i) } in
    put_prim t (adopt q (from.ycs p) (from.regs p) to) (put_prim f (give p from) w)

abbrev pub taken_over : ℕ → ℕ → ℕ → ℕ → ℕ → World → World
taken_over f p t q i w = finish_move f t q i (handed_over f p t q i w)

module _ (f p t q i : ℕ) (w : World) (ne : f ≢ t) (lop : 1 ≤ p) (loq : 1 ≤ q) where
  to : PrimaryCtx
  to = record (w.prim t) { idx_list = update (w.prim t).idx_list q (some i) }

  adopted : PrimaryCtx
  adopted = adopt q ((w.prim f).ycs p) ((w.prim f).regs p) to

  adopted_idx : (r : ℕ) → adopted.idx_list r ≡ (if q == r then some i else (w.prim t).idx_list r)
  unfolding adopted to
  adopted_idx r = ap (λ (l : IdxList). l r) (idx_list-adopt q _ _ to loq)

  adopted_runs :
      (r : ℕ)
      → 1 ≤ r
      → has_next adopted.ycs r ≡ (if q == r then true else has_next (w.prim t).ycs r)
  unfolding adopted to
  adopted_runs r lo = has_next-adopt q _ _ to loq r lo

  pub taken_over-Transfer : Transfer w (taken_over f p t q i w) f p t q i
  unfolding adopted to finish_move
  taken_over-Transfer = record {
    idx = λ s r. ground (arith, adopted_idx r);
    runs = λ s r lo. ground (arith, adopted_runs r lo);
    slot = λ j. ground arith;
    finished = λ j. ground arith;
    handle = λ j. ground arith;
  }

  -- The new host's own context and flag, and the donor's.
  pub record TakenOver (w' : World) : Type 0 where
    pub sp : ((w'.prim t).ycs 0).sp ≡ ((w.prim t).ycs 0).sp
    pub ip : ((w'.prim t).ycs 0).ip ≡ ((w.prim t).ycs 0).ip
    pub next : ((w'.prim t).ycs 0).normal_next ≡ pos sizeof_yield_ctx
    pub moved_sp : ((w'.prim t).ycs q).sp ≡ ((w.prim f).ycs p).sp
    pub moved_ip : ((w'.prim t).ycs q).ip ≡ ((w.prim f).ycs p).ip
    pub moved_regs : (w'.prim t).regs q ≡ (w.prim f).regs p
    pub flags : (s : ℕ) → (w'.prim s).reallocatable ≡ (w.prim s).reallocatable
    pub told : (w'.prim f).reallocated ≡ true

  adopted-Adopted : Adopted q ((w.prim f).ycs p) ((w.prim f).regs p) to loq adopted
  unfolding adopted
  adopted-Adopted = adopt-Adopted q ((w.prim f).ycs p) ((w.prim f).regs p) to loq

  pub taken_over-TakenOver : TakenOver (taken_over f p t q i w)
  unfolding adopted to finish_move
  taken_over-TakenOver = record {
    sp = ground (arith, adopted-Adopted.sp);
    ip = ground (arith, adopted-Adopted.ip);
    next = ground (arith, adopted-Adopted.next);
    moved_sp = ground (arith, adopted-Adopted.moved_sp);
    moved_ip = ground (arith, adopted-Adopted.moved_ip);
    moved_regs = ground (arith, adopted-Adopted.moved_regs);
    flags = λ s. ground (arith, adopted-Adopted.flag);
    told = ground arith;
  }

  pub taken_over-max : (taken_over f p t q i w).max_scav_per_thread ≡ w.max_scav_per_thread
  unfolding finish_move
  taken_over-max = refl
