-- ===== src/Apps/Ptrchase/Permutation.antt =====
-- The array that `gen_cycle` shuffles.
use native.Mathlib.Nat.{mod-lt}
use msh.Prelude.{
  ℕ, zero, suc, ◌+◌, ◌%◌, ◌^◌, ◌<◌, ◌≤◌, ◌≡◌, ◌∙◌, ◌==◌, if◌then◌else◌, for_each, for_each_in,
  arith,
}
use msh.Apps.Ptrchase.{fill_perm, swap_at, shuffle}

-- `perm` and `back` are inverse to each other below `n`.
pub record IsPermutation (n : ℕ) (perm back : ℕ → ℕ) : Type 0 where
  pub below : (i : ℕ) → i < n → perm i < n
  pub back_below : (v : ℕ) → v < n → back v < n
  pub there : (v : ℕ) → v < n → perm (back v) ≡ v
  pub home : (i : ℕ) → i < n → back (perm i) ≡ i

-- The inverse after a swap.
abbrev swap_back : ℕ → ℕ → (ℕ → ℕ) → (ℕ → ℕ) → ℕ → ℕ
swap_back i d perm back v = if v == perm i then d else if v == perm d then i else back v

module _ {n : ℕ} {perm back : ℕ → ℕ} (p : IsPermutation n perm back) (i d : ℕ) (hi : i < n)
    (hd : d < n) where
  swap-IsPermutation : IsPermutation n (swap_at i d perm) (swap_back i d perm back)
  swap-IsPermutation = record {
    below = λ j lt. ground (arith, p.below j lt, p.below i hi, p.below d hd);
    back_below = λ v lt. ground (arith, p.back_below v lt);
    there = λ v lt. ground (arith, p.there v lt, p.home i hi, p.home d hd);
    home = λ j lt. ground (arith, p.home j lt, p.home i hi, p.home d hd);
  }

fill_perm-IsPermutation :
    (n : ℕ) (perm : ℕ → ℕ) → n ≤ 2 ^ 31 → IsPermutation n (fill_perm n perm) (λ v. v)
unfolding fill_perm
fill_perm-IsPermutation n perm small = record {
  below = λ i h. omega (arith, filled i h);
  back_below = λ v h. h;
  there = filled;
  home = filled;
}
  where
    filled : (i : ℕ) → i < n → for_each n 0 (λ idx x. idx % 2 ^ 32) perm i ≡ i
    filled i h =
        for_each_in n 0 (λ idx x. idx % 2 ^ 32) perm i (omega arith) (omega arith) ∙ omega arith

-- However the numbers fall, the swaps leave a permutation.
shuffle-IsPermutation :
    (rand : ℕ → ℕ) (out_len n idx : ℕ) (perm back : ℕ → ℕ)
    → idx + n ≤ out_len
    → IsPermutation out_len perm back
    → (back' : ℕ → ℕ) × IsPermutation out_len (shuffle rand out_len n idx perm) back'
unfolding shuffle
shuffle-IsPermutation rand out_len zero idx perm back room p = (back, p)
shuffle-IsPermutation rand out_len (suc n) idx perm back room p =
    shuffle-IsPermutation rand out_len n (idx + 1) (swap_at idx dst perm)
      (swap_back idx dst perm back) (omega arith)
      (swap-IsPermutation p idx dst (omega arith) (mod-lt (rand idx) (omega arith)))
  where
    dst : ℕ
    dst = rand idx % out_len

-- What `gen_cycle` has when its shuffle is done.
pub shuffled :
    (rand perm : ℕ → ℕ) (n : ℕ)
    → n ≤ 2 ^ 31
    → (back : ℕ → ℕ) × IsPermutation n (shuffle rand n n 0 (fill_perm n perm)) back
shuffled rand perm n small =
    shuffle-IsPermutation rand n n 0 (fill_perm n perm) (λ v. v) (omega arith)
      (fill_perm-IsPermutation n perm small)
