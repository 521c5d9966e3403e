-- ===== src/Init/Tables.antt =====
-- The cleared tables.
use msh.Prelude.{
  ℕ, ◌+◌, ◌<◌, ◌≤◌, ◌≡◌, inl, inr, refl, ap, ◌∙◌, not, false, ltb, none, is_minus_one, minus_one,
  for_each_in, for_each_ge, Bool-cases, arith,
}
use msh.Memory.{max_active_crt_num, max_crt_per_thread, max_thread_num, YieldCtx, PrimaryCtx, World}
use msh.NextMap.{has_next}
use msh.Hosting.{idx_at, runs_at, IsHosting}
use msh.Init.{reset_prim, init_prim_table}

-- The tables as the process starts with them: no scavenger has a context. `PRIM_TABLE` and
-- `SCAV_TABLE` have nothing beyond their ends, which is said of the indices there.
pub record IsUnused (w : World) : Type 0 where
  pub unhosted : (i : ℕ) → (w.scav i).yc ≡ none
  pub no_entry : (i : ℕ) → max_active_crt_num ≤ i → (w.scav i).lib_handle ≡ none
  pub no_list : (t p : ℕ) → max_thread_num ≤ t → p ≤ max_crt_per_thread → idx_at w t p ≡ none
  pub no_link : (t p : ℕ) → max_thread_num ≤ t → p ≤ max_crt_per_thread → runs_at w t p ≡ false
  pub no_flag : (t : ℕ) → max_thread_num ≤ t → (w.prim t).reallocatable ≡ false

reset_list : (c : PrimaryCtx) (p : ℕ) → p ≤ max_crt_per_thread → (reset_prim c).idx_list p ≡ none
unfolding reset_prim
reset_list c p hi =
    for_each_in (max_crt_per_thread + 1) 0 (λ j x. none) c.idx_list p (omega arith) (omega arith)

reset_runs :
    (c : PrimaryCtx) (p : ℕ) → p ≤ max_crt_per_thread → has_next (reset_prim c).ycs p ≡ false
unfolding reset_prim
reset_runs c p hi =
    ap (λ (y : YieldCtx). not (is_minus_one y.normal_next))
      (for_each_in (max_crt_per_thread + 1) 0 (λ j yc. record yc { normal_next = minus_one }) c.ycs
        p (omega arith) (omega arith))

reset_flag : (c : PrimaryCtx) → (reset_prim c).reallocatable ≡ false
unfolding reset_prim
reset_flag c = refl

pub init_in :
    (t : ℕ) (w : World) → t < max_thread_num → (init_prim_table w).prim t ≡ reset_prim (w.prim t)
unfolding init_prim_table
init_in t w h =
    for_each_in max_thread_num 0 (λ s c. reset_prim c) w.prim t (omega arith) (omega arith)

init_out : (t : ℕ) (w : World) → max_thread_num ≤ t → (init_prim_table w).prim t ≡ w.prim t
unfolding init_prim_table
init_out t w h = for_each_ge max_thread_num 0 (λ s c. reset_prim c) w.prim t (omega arith)

pub init_scav : (w : World) → (init_prim_table w).scav ≡ w.scav
unfolding init_prim_table
init_scav w = refl

pub cleared_list :
    (w : World) (t p : ℕ)
    → IsUnused w
    → p ≤ max_crt_per_thread
    → idx_at (init_prim_table w) t p ≡ none
cleared_list w t p u hi = elim (Bool-cases (ltb t max_thread_num)) [
  | inl in_ ↦ ap (λ c. c.idx_list p) (init_in t w (ground arith)) ∙ reset_list (w.prim t) p hi
  | inr out ↦ ap (λ c. c.idx_list p) (init_out t w (ground arith)) ∙ u.no_list t p (ground arith) hi
]

pub cleared_runs :
    (w : World) (t p : ℕ)
    → IsUnused w
    → p ≤ max_crt_per_thread
    → runs_at (init_prim_table w) t p ≡ false
cleared_runs w t p u hi = elim (Bool-cases (ltb t max_thread_num)) [
  | inl in_ ↦ ap (λ c. has_next c.ycs p) (init_in t w (ground arith)) ∙ reset_runs (w.prim t) p hi
  | inr out ↦
      ap (λ c. has_next c.ycs p) (init_out t w (ground arith)) ∙ u.no_link t p (ground arith) hi
]

-- The flag of every thread is down.
pub cleared_flag :
    (w : World) (t : ℕ)
    → (max_thread_num ≤ t → (w.prim t).reallocatable ≡ false)
    → ((init_prim_table w).prim t).reallocatable ≡ false
cleared_flag w t past = elim (Bool-cases (ltb t max_thread_num)) [
  | inl in_ ↦ ap (λ c. c.reallocatable) (init_in t w (ground arith)) ∙ reset_flag (w.prim t)
  | inr out ↦ ap (λ c. c.reallocatable) (init_out t w (ground arith)) ∙ past (ground arith)
]

-- The lists are empty and no scavenger has a context.
pub record IsCleared (w : World) : Type 0 where
  pub list : (t p : ℕ) → p ≤ max_crt_per_thread → idx_at w t p ≡ none
  pub runs : (t p : ℕ) → p ≤ max_crt_per_thread → runs_at w t p ≡ false
  pub unhosted : (i : ℕ) → (w.scav i).yc ≡ none

pub IsCleared-IsHosting : {w : World} → IsCleared w → IsHosting w
IsCleared-IsHosting c = record {
  host = λ t p i lo hi e. absurd (ground (arith, c.list t p));
  back = λ i t p e. absurd (ground (arith, c.unhosted i));
  reserved = λ t. c.list t 0 (omega arith);
  live = λ t p lo hi. ground (arith, c.list t p, c.runs t p);
  unfinished = λ t p i lo hi e. absurd (ground (arith, c.list t p));
  loaded = λ t p i lo hi e. absurd (ground (arith, c.list t p));
}

pub init_prim_table-IsCleared : (w : World) → IsUnused w → IsCleared (init_prim_table w)
init_prim_table-IsCleared w u = record {
  list = λ t p hi. cleared_list w t p u hi;
  runs = λ t p hi. cleared_runs w t p u hi;
  unhosted = λ i. ap (λ s. (s i).yc) (init_scav w) ∙ u.unhosted i;
}
