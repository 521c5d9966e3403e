-- ===== src/IdxList/Order.antt =====
-- The scavengers of a list in the order of their positions.
use msh.Prelude.{
  ℕ, zero, suc, ◌+◌, ◌<◌, ◌≤◌, ◌≡◌, ◌≢◌, inl, inr, refl, ap, ◌∙◌, sym, ◌==◌, none, some, List, [],
  ◌∷◌, Bool-cases, ==→eq, arith,
}
use msh.IdxList.{IdxList}

-- The scavengers in the `n` positions from `i`.
pub occupants : IdxList → ℕ → ℕ → List ℕ
occupants l zero i = []
occupants l (suc n) i =
    let rest = occupants l n (i + 1) in elim (l i) [ none ↦ rest | some x ↦ x ∷ rest ]

occupants-none :
    (l : IdxList) (n i : ℕ) → l i ≡ none → occupants l (suc n) i ≡ occupants l n (i + 1)
unfolding occupants
occupants-none l n i e = rw (e, occupants)

occupants-some :
    (l : IdxList) (n i x : ℕ) → l i ≡ some x → occupants l (suc n) i ≡ x ∷ occupants l n (i + 1)
unfolding occupants
occupants-some l n i x e = rw (e, occupants)

-- Lists that agree at `i`, and from there on have the same scavengers.
occupants_step :
    (l l' : IdxList) (n i : ℕ)
    → l i ≡ l' i
    → occupants l n (i + 1) ≡ occupants l' n (i + 1)
    → occupants l (suc n) i ≡ occupants l' (suc n) i
unfolding occupants
occupants_step l l' n i e h = ground (arith, e, h)

pub occupants_congr :
    (l l' : IdxList) (n i : ℕ) → ((q : ℕ) → i ≤ q → l q ≡ l' q) → occupants l n i ≡ occupants l' n i
unfolding occupants
occupants_congr l l' zero i h = refl
occupants_congr l l' (suc n) i h =
    occupants_step l l' n i (h i (omega arith))
      (occupants_congr l l' n (i + 1) (λ q lo. h q (omega arith)))

-- The first scavenger of a range, at `q`, and the list without it.
occupants_first :
    (l l' : IdxList) (n i q x : ℕ)
    → i ≤ q
    → q < i + n
    → l q ≡ some x
    → l' q ≡ none
    → ((r : ℕ) → q < r → l r ≡ l' r)
    → ((r : ℕ) → i ≤ r → r < q → (l r ≡ none) × (l' r ≡ none))
    → occupants l n i ≡ x ∷ occupants l' n i
occupants_first l l' zero i q x lo hi e e' later gap = absurd (omega arith)
occupants_first l l' (suc n) i q x lo hi e e' later gap = elim (Bool-cases (i == q)) [
  | inl same ↦
      let here : i ≡ q = ==→eq i q same in
      occupants-some l n i x (ap l here ∙ e)
      ∙ ap (λ r. x ∷ r)
          (occupants_congr l l' n (i + 1) (λ r lo'. later r (omega arith))
            ∙ sym (occupants-none l' n i (ap l' here ∙ e')))
  | inr other ↦
      occupants-none l n i (gap i (omega arith) (ground arith)).0
      ∙ occupants_first l l' n (i + 1) q x (ground arith) (omega arith) e e' later
          (λ r lo' hi'. gap r (omega arith) hi')
      ∙ ap (λ r. x ∷ r) (sym (occupants-none l' n i (gap i (omega arith) (ground arith)).1))
]

-- A scavenger moves from `q` down into the hole at `p`, over free positions only: the order of the
-- scavengers stays.
pub occupants_move :
    (l l' : IdxList) (n i p q x : ℕ)
    → i ≤ p
    → p < q
    → q < i + n
    → l p ≡ none
    → l q ≡ some x
    → ((r : ℕ) → p < r → r < q → l r ≡ none)
    → l' p ≡ some x
    → l' q ≡ none
    → ((r : ℕ) → r ≢ p → r ≢ q → l' r ≡ l r)
    → occupants l' n i ≡ occupants l n i
occupants_move l l' zero i p q x lo mid hi hp hq gap hp' hq' other = absurd (omega arith)
occupants_move l l' (suc n) i p q x lo mid hi hp hq gap hp' hq' other = elim (Bool-cases (i == p)) [
  | inl same ↦
      let here : i ≡ p = ==→eq i p same in
      occupants-some l' n i x (ap l' here ∙ hp')
      ∙ sym (
          occupants_first l l' n (i + 1) q x (omega arith) (omega arith) hq hq'
            (λ r h. sym (other r (omega arith) (omega arith)))
            (λ r lo' hi'. (
              gap r (omega arith) hi',
              other r (omega arith) (omega arith) ∙ gap r (omega arith) hi',
            )))
      ∙ sym (occupants-none l n i (ap l here ∙ hp))
  | inr before ↦
      occupants_step l' l n i (other i (ground arith) (ground arith)) (
        occupants_move l l' n (i + 1) p q x (ground arith) mid (omega arith) hp hq gap hp' hq'
          other)
]
