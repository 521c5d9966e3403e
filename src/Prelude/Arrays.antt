-- ===== src/Prelude/Arrays.antt =====
-- C arrays as functions of the index: a write at one index, and a loop that rewrites each element
-- of a range in place.
use Prim.Native.Nat.{ℕ, zero, suc, ◌+◌, ◌<◌, ◌≤◌}
use mathlib.Core.Path.{◌≡◌, refl, ap, ◌∙◌}
use mathlib.Core.Logic.{◌≢◌, inl, inr}
use native.Mathlib.Omega.{arith}
use msh.Prelude.Tests.{◌==◌, if◌then◌else◌, Bool-cases, ==→eq}

module _ {ℓ} {A : Type ℓ} where
  -- `f[i] = v`
  abbrev pub update : (ℕ → A) → ℕ → A → ℕ → A
  update f i v j = if i == j then v else f j

  pub update_self : (f : ℕ → A) (i : ℕ) (v : A) → update f i v i ≡ v
  update_self f i v = ground arith

  pub update_ne : (f : ℕ → A) {i j : ℕ} (v : A) → i ≢ j → update f i v j ≡ f j
  update_ne f v h = ground arith

  -- `for (k = i; k < i + n; k++) f[k] = g(k, f[k]);`
  unfoldable pub for_each : ℕ → ℕ → (ℕ → A → A) → (ℕ → A) → ℕ → A
  for_each zero i g f = f
  for_each (suc n) i g f = for_each n (i + 1) g (update f i (g i (f i)))

  pub for_each_lt : (n i : ℕ) (g : ℕ → A → A) (f : ℕ → A) (j : ℕ) → j < i → for_each n i g f j ≡ f j
  unfolding for_each
  for_each_lt zero i g f j h = refl
  for_each_lt (suc n) i g f j h =
      for_each_lt n (i + 1) g (update f i (g i (f i))) j (omega arith)
      ∙ update_ne f (g i (f i)) (omega arith)

  pub for_each_ge :
      (n i : ℕ) (g : ℕ → A → A) (f : ℕ → A) (j : ℕ) → i + n ≤ j → for_each n i g f j ≡ f j
  unfolding for_each
  for_each_ge zero i g f j h = refl
  for_each_ge (suc n) i g f j h =
      for_each_ge n (i + 1) g (update f i (g i (f i))) j (omega arith)
      ∙ update_ne f (g i (f i)) (omega arith)

  -- Each element of the range is rewritten once, from its value before the loop.
  pub for_each_in :
      (n i : ℕ) (g : ℕ → A → A) (f : ℕ → A) (j : ℕ)
      → i ≤ j
      → j < i + n
      → for_each n i g f j ≡ g j (f j)
  unfolding for_each
  for_each_in zero i g f j lo hi = absurd (omega arith)
  for_each_in (suc n) i g f j lo hi = elim (Bool-cases (i == j)) [
    | inl e ↦
        rw (← ==→eq i j e)
          (for_each_lt n (i + 1) g (update f i (g i (f i))) i (omega arith) ∙ update_self f i _)
    | inr e ↦
        for_each_in n (i + 1) g (update f i (g i (f i))) j (ground arith) (omega arith)
        ∙ ap (g j) (update_ne f _ (ground arith))
  ]
