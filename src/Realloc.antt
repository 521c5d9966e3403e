-- ===== src/Realloc.antt =====
-- libmsh/msh.c: `realloc_scav`, which takes scavengers from a thread that is blocked. Its caller
-- passes the context of the calling thread `t` as `to`, so the `tl_` macros are about `to`. The
-- flag of `t` is down while it runs, so `from`, the context of thread `f`, is another object.
pub mod Move
pub mod Round
pub mod Loop
pub mod Frame
pub mod Kept
pub mod Plain
pub mod Primary
use msh.Prelude.{
  ℕ, zero, suc, ◌+◌, ◌==◌, if◌then◌else◌, true, update, Option, none, some, ℤ, pos, minus_one,
  to_short, Outcome, ok, ◌>>=◌,
}
use msh.Memory.{
  max_crt_per_thread, sizeof_yield_ctx, YieldCtx, CoroutineCtx, PrimaryCtx, Block, World, put_prim,
  put_scav, yield_ptr, Loader,
}
use msh.IdxList.{IdxList, push_back, pop_back}
use msh.NextMap.{update_next_map}
use msh.Symbols.{move_symbol}

-- `from` after "no rollback from this point": the context at `p` is given away.
abbrev pub give : ℕ → PrimaryCtx → PrimaryCtx
give p from = record from {
  ycs = update from.ycs p (record (from.ycs p) { normal_next = minus_one });
}

-- `to` there: the context `yc` and the registers come to `q`, and the primary is pointed at the
-- first position.
abbrev pub place : ℕ → YieldCtx → PrimaryCtx → PrimaryCtx
place q yc to = record to {
  ycs = update to.ycs q (record (to.ycs q) { sp = yc.sp; ip = yc.ip; normal_next = pos 0 });
}

pub adopt : ℕ → YieldCtx → Block → PrimaryCtx → PrimaryCtx
adopt q yc regs to =
    let to2 = update_next_map (place q yc to) in
    let to3 = record to2 {
      ycs = update to2.ycs 0 (record (to2.ycs 0) { normal_next = to_short sizeof_yield_ctx });
    } in
    record to3 { regs = update to3.regs q regs }

-- After the symbol.
pub finish_move : ℕ → ℕ → ℕ → ℕ → World → World
finish_move f t q i w =
    let w1 = put_scav i (record (w.scav i) { yc = some (yield_ptr t q) }) w in
    put_prim f (record (w1.prim f) { reallocated = true }) w1

-- How a round of the loop ends: the loop goes on, or is left.
pub data Turn : Type 0 where
  moved : World → Turn
  stopped : World → Turn

module _ (L : Loader) where
  -- The rest of a round, once item `i` has come from position `p` of `f` and left the list `l`,
  -- by the outcome of the push to `t`: a rollback, or the move.
  pub realloc_pushed : ℕ → ℕ → ℕ → ℕ → IdxList → World → IdxList × Option ℕ → Outcome Turn
  unfolding adopt finish_move
  realloc_pushed f p t i l w (m, none) = ok (
      stopped (
        put_prim f (record (w.prim f) { idx_list = (push_back l (max_crt_per_thread + 1) i).0 }) w))
  realloc_pushed f p t i l w (m, some q) =
      let from = record (w.prim f) { idx_list = l } in
      let to = record (w.prim t) { idx_list = m } in
      move_symbol L (some i) q
        (put_prim t (adopt q (from.ycs p) (from.regs p) to) (put_prim f (give p from) w))
      >>= λ w'. ok (moved (finish_move f t q i w'))

  -- A round, by the outcome of the pop from `f`.
  pub realloc_popped : ℕ → ℕ → World → IdxList × Option (ℕ × ℕ) → Outcome Turn
  unfolding realloc_pushed
  realloc_popped f t w (l, none) = ok (stopped w)
  realloc_popped f t w (l, some (i, p)) =
      realloc_pushed f p t i l w (push_back (w.prim t).idx_list (max_crt_per_thread + 1) i)

  -- One round of the loop of `realloc_scav`.
  pub realloc_one : ℕ → ℕ → World → Outcome Turn
  unfolding realloc_popped
  realloc_one f t w = realloc_popped f t w (pop_back (w.prim f).idx_list (max_crt_per_thread + 1))

  -- `realloc_scav`, with `n` more scavengers demanded and `ret` taken.
  pub realloc_scav : ℕ → ℕ → ℕ → ℕ → World → Outcome (ℕ × World)
  unfolding realloc_one
  realloc_scav f t zero ret w = ok (ret, w)
  realloc_scav f t (suc n) ret w =
      realloc_one f t w
      >>= elim [ moved w' ↦ realloc_scav f t n (ret + 1) w' | stopped w' ↦ ok (ret, w') ]
