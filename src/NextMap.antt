-- ===== src/NextMap.antt =====
-- libmsh/msh.c: the links between the yield contexts of one primary thread. The scavenger that a
-- yield of the primary enters is `ycs[0].normal_next`; `special_next` chains the scavengers. A link
-- is the byte offset of a yield context, and -1 in `normal_next` marks a finished coroutine.
pub mod Ring
pub mod Available
pub mod Plain
pub mod Primary
use msh.Prelude.{
  ℕ, ◌+◌, ◌*◌, ◌/◌, ◌≡◌, Bool, not, if◌then◌else◌, ◌==◌, is_none, update, for_each, Option, none,
  some, ℤ, pos, negsuc, minus_one, is_minus_one, to_short, first_pos,
}
use msh.Memory.{sizeof_yield_ctx, max_crt_per_thread, YieldCtx, PrimaryCtx}

-- `ctx->idx_list[p]` as `tl_get_crt_idx_at` reads it. The array has 129 entries, and `scav_num`, an
-- `int` that is never -1, follows it in the struct: that is what index 129 reads.
abbrev pub crt_idx_at : PrimaryCtx → ℕ → Option ℕ
crt_idx_at c p = if p == max_crt_per_thread + 1 then some c.scav_num else c.idx_list p

-- The body of the loop of `set_special_next`: the 0 that is stored at the last position is
-- overwritten by the test below it.
abbrev pub special_next_at : PrimaryCtx → ℕ → ℤ
special_next_at c p =
    if is_none (crt_idx_at c (p + 1)) then pos 0 else to_short ((p + 1) * sizeof_yield_ctx)

-- `set_special_next`
unfoldable pub set_special_next : PrimaryCtx → PrimaryCtx
set_special_next c = record c {
  ycs =
      for_each max_crt_per_thread 1 (λ p yc. record yc { special_next = special_next_at c p })
        c.ycs;
}

abbrev pub has_next : (ℕ → YieldCtx) → ℕ → Bool
has_next ycs p = not (is_minus_one (ycs p).normal_next)

-- `tl_next_available_crt`
unfoldable pub next_available_crt : (ℕ → YieldCtx) → ℕ
next_available_crt ycs = elim (first_pos (has_next ycs) max_crt_per_thread 1) [
  | none ↦ 0
  | some p ↦ p
]

-- `tl_update_next_map`
unfoldable pub update_next_map : PrimaryCtx → PrimaryCtx
update_next_map c = if is_minus_one (c.ycs 0).normal_next then c else record c {
  ycs =
      update c.ycs 0
        (record (c.ycs 0) { normal_next = to_short (sizeof_yield_ctx * next_available_crt c.ycs) });
}
