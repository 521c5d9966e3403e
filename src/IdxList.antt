-- ===== src/IdxList.antt =====
-- libmsh/msh.c: the list of the scavengers that a primary thread hosts (`idx_list`), with the
-- macros that push and pop it, and the scans over it. Position 0 is the primary's own.
pub mod Ends
pub mod Push
pub mod Order
use msh.Prelude.{
  ℕ, zero, suc, ◌+◌, ◌-◌, ◌<◌, ◌≤◌, ◌≡◌, refl, Bool, if◌then◌else◌, ltb, is_some, is_none, update,
  Option, none, some, ℤ, pos, negsuc, first_pos, last_pos, count_pos,
}
use msh.Memory.{max_crt_per_thread}

abbrev pub IdxList : Type 0
IdxList = ℕ → Option ℕ

abbrev pub vacant : IdxList → ℕ → Bool
vacant l p = is_none (l p)

abbrev pub occupied : IdxList → ℕ → Bool
occupied l p = is_some (l p)

-- `push_back_to_list`: the list, and the position written, `none` for a `pos` left alone.
unfoldable pub push_back : IdxList → ℕ → ℕ → IdxList × Option ℕ
push_back l size item = elim (first_pos (vacant l) (size - 1) 1) [
  | none ↦ (l, none)
  | some p ↦ (update l p (some item), some p)
]

-- `pop_back_from_list`: the list, and the item with its position.
unfoldable pub pop_back : IdxList → ℕ → IdxList × Option (ℕ × ℕ)
pop_back l size = elim (last_pos (occupied l) (size - 1)) [
  | none ↦ (l, none)
  | some p ↦ elim (l p) [ none ↦ (l, none) | some item ↦ (update l p none, some (item, p)) ]
]

-- `tl_find_unfinished_crt`: 0 if there is none.
pub find_unfinished_crt : IdxList → ℕ
find_unfinished_crt l = elim (first_pos (occupied l) max_crt_per_thread 1) [ none ↦ 0 | some p ↦ p ]

-- the count in `need_more_scav`
pub hosted : IdxList → ℕ
hosted l = count_pos (occupied l) max_crt_per_thread 1

-- `need_more_scav`, with `max_scav_per_thread` as `most`
unfoldable pub need_more_scav : ℤ → IdxList → ℕ
unfolding hosted
need_more_scav most l = elim most [
  | pos m ↦ if ltb (hosted l) m then m - hosted l else 0
  | negsuc m ↦ 0
]
