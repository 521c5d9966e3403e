-- ===== src/Apps/Ptrchase/Cycle.antt =====
-- The successors that `gen_cycle` writes, followed from 0.
use native.Mathlib.Nat.{mod-eq_of_lt, mod_self}
use mathlib.Core.Path.{subst}
use msh.Prelude.{
  ==→eq, update_self, ℕ, zero, suc, ◌+◌, ◌-◌, ◌%◌, ◌^◌, ◌<◌, ◌≤◌, ◌≡◌, ◌≢◌, inl, inr, refl, ap, ◌∙◌,
  sym, ◌==◌, ltb, if◌then◌else◌, update, Bool-cases, arith,
}
use msh.Apps.Ptrchase.{fill_perm, shuffle, write_cycle, gen_cycle}
use msh.Apps.Ptrchase.Permutation.{IsPermutation, shuffled}

-- The step from position `i` of a cycle of `n` positions.
mod_step : (n i : ℕ) → i < n → (i + 1) % n ≡ (if i + 1 == n then 0 else i + 1)
mod_step n i h = elim (Bool-cases (i + 1 == n)) [
  | inl last ↦ rw last (ap (λ k. k % n) (ground arith) ∙ mod_self n)
  | inr more ↦ rw more (mod-eq_of_lt (ground arith))
]

module _ {n : ℕ} {perm back : ℕ → ℕ} (p : IsPermutation n perm back) where
  write_cycle_rest :
      (m idx j : ℕ) (out : ℕ → ℕ)
      → idx + m ≤ n
      → j < idx
      → write_cycle n perm m idx out (perm j) ≡ out (perm j)
  unfolding write_cycle
  write_cycle_rest zero idx j out room before = refl
  write_cycle_rest (suc m) idx j out room before =
      write_cycle_rest m (idx + 1) j (update out (perm idx) (perm ((idx + 1) % n))) (omega arith)
        (omega arith)
      ∙ ground (arith, p.home idx (omega arith), p.home j (omega arith))

  write_cycle_in :
      (m idx j : ℕ) (out : ℕ → ℕ)
      → idx + m ≤ n
      → idx ≤ j
      → j < idx + m
      → write_cycle n perm m idx out (perm j) ≡ perm ((j + 1) % n)
  unfolding write_cycle
  write_cycle_in zero idx j out room lo hi = absurd (omega arith)
  write_cycle_in (suc m) idx j out room lo hi = elim (Bool-cases (idx == j)) [
    | inl here ↦
        write_cycle_rest m (idx + 1) j (update out (perm idx) (perm ((idx + 1) % n))) (omega arith)
          (omega (arith, ==→eq idx j here))
        ∙ subst (λ k. update out (perm idx) (perm ((idx + 1) % n)) (perm k) ≡ perm ((k + 1) % n))
            (==→eq idx j here) (update_self out (perm idx) (perm ((idx + 1) % n)))
    | inr there ↦
        write_cycle_in m (idx + 1) j (update out (perm idx) (perm ((idx + 1) % n))) (omega arith)
          (ground arith) (omega arith)
  ]

-- `k` steps from `v` along the successors `out`.
unfoldable pub after : (ℕ → ℕ) → ℕ → ℕ → ℕ
after out zero v = v
after out (suc k) v = out (after out k v)

-- The steps from 0 go through every index below `n` once, and then back to 0.
pub record IsCycle (n : ℕ) (out : ℕ → ℕ) : Type 0 where
  pub within : (k : ℕ) → k < n → after out k 0 < n
  pub distinct : (j k : ℕ) → j < k → k < n → after out j 0 ≢ after out k 0
  pub covers : (v : ℕ) → v < n → (k : ℕ) × (k < n) × (after out k 0 ≡ v)
  pub closes : after out n 0 ≡ 0

-- The position that is `k` steps behind position `i`.
abbrev position : ℕ → ℕ → ℕ → ℕ
position n i k = if ltb (i + k) n then i + k else i + k - n

position_suc : (n i k : ℕ) → i < n → k < n → (position n i k + 1) % n ≡ position n i (k + 1)
position_suc n i k hi hk = mod_step n (position n i k) (ground arith) ∙ ground arith

module _ {n : ℕ} {perm back : ℕ → ℕ} (some_ : 0 < n) (p : IsPermutation n perm back) where
  start-lt : back 0 < n
  start-lt = p.back_below 0 some_

  position-lt : (k : ℕ) → k ≤ n → position n (back 0) k < n
  position-lt k h = ground (arith, start-lt)

  position-ne :
      (j k : ℕ) → j < k → k < n → perm (position n (back 0) j) ≢ perm (position n (back 0) k)
  position-ne j k lt hk e =
      let same : position n (back 0) j ≡ position n (back 0) k =
        sym (p.home (position n (back 0) j) (position-lt j (omega arith)))
        ∙ ap back e
        ∙ p.home (position n (back 0) k) (position-lt k (omega arith)) in
      ground (arith, start-lt)

  -- How far the index `v` is from 0.
  distance : ℕ → ℕ
  distance v = if ltb (back v) (back 0) then back v + n - back 0 else back v - back 0

  distance-lt : (v : ℕ) → v < n → distance v < n
  unfolding distance
  distance-lt v h = ground (arith, start-lt, p.back_below v h)

  position-distance : (v : ℕ) → v < n → position n (back 0) (distance v) ≡ back v
  unfolding distance
  position-distance v h = ground (arith, start-lt, p.back_below v h)

  position_closes : perm (position n (back 0) n) ≡ 0
  position_closes = ap perm (ground (arith, start-lt)) ∙ p.there 0 some_

  module _ (out : ℕ → ℕ) (linked : (j : ℕ) → j < n → out (perm j) ≡ perm ((j + 1) % n)) where
    after_position : (k : ℕ) → k ≤ n → after out k 0 ≡ perm (position n (back 0) k)
    unfolding after
    after_position zero h = sym (p.there 0 some_) ∙ ap perm (ground (arith, start-lt))
    after_position (suc k) h =
        ap out (after_position k (omega arith))
        ∙ linked (position n (back 0) k) (position-lt k (omega arith))
        ∙ ap perm (
            position_suc n (back 0) k start-lt (omega arith)
            ∙ ap (position n (back 0)) (omega arith))

    linked-IsCycle : IsCycle n out
    linked-IsCycle = record {
      within = λ k h. omega (
        arith,
        after_position k (omega arith),
        p.below (position n (back 0) k) (position-lt k (omega arith)),
      );
      distinct = λ j k lt hk e.
          position-ne j k lt hk
            (sym (after_position j (omega arith)) ∙ e ∙ after_position k (omega arith));
      covers = λ v h. (
        distance v,
        distance-lt v h,
        after_position (distance v) (omega (arith, distance-lt v h))
            ∙ ap perm (position-distance v h)
            ∙ p.there v h,
      );
      closes = after_position n (omega arith) ∙ position_closes;
    }

-- Whatever numbers `rand` gives and whatever the arrays held, `gen_cycle` for 1 to 2 ^ 31 indices
-- writes one cycle: from 0 it goes through every index once, and back to 0 after as many steps as
-- there are indices.
pub gen_cycle-IsCycle :
    (rand perm out : ℕ → ℕ) (n : ℕ) → 0 < n → n ≤ 2 ^ 31 → IsCycle n (gen_cycle rand perm out n)
unfolding gen_cycle
gen_cycle-IsCycle rand perm out n some_ small =
    let (back, p) = shuffled rand perm n small in
    linked-IsCycle some_ p (write_cycle n (shuffle rand n n 0 (fill_perm n perm)) n 0 out)
      (λ j h. write_cycle_in p n 0 j out (omega arith) (omega arith) (omega arith))
