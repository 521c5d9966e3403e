-- ===== src/NextMap/Ring.antt =====
-- The chain that `set_special_next` makes.
use msh.Prelude.{
  ℕ, zero, suc, ◌+◌, ◌*◌, ◌/◌, ◌<◌, ◌≤◌, ◌≡◌, inl, inr, refl, ap, ◌∙◌, true, false, if◌then◌else◌,
  ltb, for_each_in, for_each_lt, for_each_ge, pos, to_short, to_short_small, to_size, arith,
  Bool-cases,
}
use msh.Memory.{sizeof_yield_ctx, max_crt_per_thread, YieldCtx, PrimaryCtx}
use msh.IdxList.{occupied}
use msh.NextMap.{special_next_at, set_special_next}

-- Every position but the primary's gets its link, and nothing else of it changes.
pub set_special_next_at :
    (c : PrimaryCtx) (p : ℕ)
    → 1 ≤ p
    → p ≤ max_crt_per_thread
    → (set_special_next c).ycs p ≡ record (c.ycs p) { special_next = special_next_at c p }
unfolding set_special_next
set_special_next_at c p lo hi = for_each_in max_crt_per_thread 1 _ c.ycs p lo (omega arith)

pub set_special_next_primary : (c : PrimaryCtx) → (set_special_next c).ycs 0 ≡ c.ycs 0
unfolding set_special_next
set_special_next_primary c = for_each_lt max_crt_per_thread 1 _ c.ycs 0 (omega arith)

pub set_special_next_beyond :
    (c : PrimaryCtx) (p : ℕ) → max_crt_per_thread < p → (set_special_next c).ycs p ≡ c.ycs p
unfolding set_special_next
set_special_next_beyond c p h = for_each_ge max_crt_per_thread 1 _ c.ycs p (omega arith)

-- The chain is read off alone: the links to positions do not touch what `tl_next_available_crt`
-- reads.
pub set_special_next_normal :
    (c : PrimaryCtx) (p : ℕ) → ((set_special_next c).ycs p).normal_next ≡ (c.ycs p).normal_next
set_special_next_normal c zero = ap (λ (y : YieldCtx). y.normal_next) (set_special_next_primary c)
set_special_next_normal c (suc p) = elim (Bool-cases (ltb p max_crt_per_thread)) [
  | inl e ↦
      ap (λ (y : YieldCtx). y.normal_next)
        (set_special_next_at c (suc p) (omega arith) (ground arith))
  | inr e ↦ ap (λ (y : YieldCtx). y.normal_next) (set_special_next_beyond c (suc p) (ground arith))
]

pub idx_list-set_special_next : (c : PrimaryCtx) → (set_special_next c).idx_list ≡ c.idx_list
unfolding set_special_next
idx_list-set_special_next c = refl

-- A link as the position that it leads to, and the position after `n` links.
abbrev pub follow : PrimaryCtx → ℕ → ℕ
follow c p = to_size (c.ycs p).special_next / sizeof_yield_ctx

pub walk : PrimaryCtx → ℕ → ℕ → ℕ
walk c zero p = p
walk c (suc n) p = walk c n (follow c p)

-- `c` hosts scavengers at the positions 1 to `k`, and nowhere else.
abbrev pub Hosts : PrimaryCtx → ℕ → Type 0
Hosts c k =
    (p : ℕ)
    → 1 ≤ p
    → p ≤ max_crt_per_thread
    → occupied c.idx_list p ≡ (if ltb k p then false else true)

special_next-small :
    (p : ℕ)
    → p < max_crt_per_thread
    → to_short ((p + 1) * sizeof_yield_ctx) ≡ pos ((p + 1) * sizeof_yield_ctx)
special_next-small p h = to_short_small ((p + 1) * sizeof_yield_ctx) (omega arith)

follow_inner :
    (c : PrimaryCtx) (k p : ℕ)
    → Hosts c k
    → k < max_crt_per_thread
    → 1 ≤ p
    → p < k
    → follow (set_special_next c) p ≡ p + 1
follow_inner c k p h small lo hi =
    ap (λ (y : YieldCtx). to_size y.special_next / sizeof_yield_ctx)
      (set_special_next_at c p lo (omega arith))
    ∙ ground (arith, h (p + 1) (omega arith) (omega arith), special_next-small p (omega arith))

follow_last :
    (c : PrimaryCtx) (k : ℕ)
    → Hosts c k
    → k < max_crt_per_thread
    → 1 ≤ k
    → follow (set_special_next c) k ≡ 0
follow_last c k h small lo =
    ap (λ (y : YieldCtx). to_size y.special_next / sizeof_yield_ctx)
      (set_special_next_at c k lo (omega arith))
    ∙ ground (arith, h (k + 1) (omega arith) (omega arith))

walk_inner :
    (c : PrimaryCtx) (k n p : ℕ)
    → Hosts c k
    → k < max_crt_per_thread
    → 1 ≤ p
    → p + n ≤ k
    → walk (set_special_next c) n p ≡ p + n
unfolding walk
walk_inner c k zero p h small lo hi = omega arith
walk_inner c k (suc n) p h small lo hi =
    ap (walk (set_special_next c) n) (follow_inner c k p h small lo (omega arith))
    ∙ walk_inner c k n (p + 1) h small (omega arith) (omega arith)
    ∙ omega arith

walk-add : (c : PrimaryCtx) (n p : ℕ) → walk c (suc n) p ≡ follow c (walk c n p)
unfolding walk
walk-add c zero p = refl
walk-add c (suc n) p = walk-add c n (follow c p)

-- With `k` scavengers at the positions 1 to `k`, fewer than the array has room for, the links lead
-- from position 1 through every hosted position in turn, and after `k` steps to the primary.
pub special_next_ring :
    (c : PrimaryCtx) (k : ℕ)
    → Hosts c k
    → 1 ≤ k
    → k < max_crt_per_thread
    → ((n : ℕ) → n < k → walk (set_special_next c) n 1 ≡ n + 1)
      × (walk (set_special_next c) k 1 ≡ 0)
special_next_ring c k h lo small =
    (λ n hi. walk_inner c k n 1 h small (omega arith) (omega arith) ∙ omega arith, closes k lo refl)
  where
    closes : (m : ℕ) → 1 ≤ m → m ≡ k → walk (set_special_next c) m 1 ≡ 0
    closes zero lo' e = absurd (omega arith)
    closes (suc m) lo' e =
        walk-add (set_special_next c) m 1
        ∙ ap (follow (set_special_next c))
            (walk_inner c k m 1 h small (omega arith) (omega arith) ∙ reached m e)
        ∙ follow_last c k h small lo
      where
        reached : (m : ℕ) → suc m ≡ k → 1 + m ≡ k
        reached m e = omega arith

pub set_special_next_flag : (c : PrimaryCtx) → (set_special_next c).reallocatable ≡ c.reallocatable
unfolding set_special_next
set_special_next_flag c = refl
