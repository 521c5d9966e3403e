-- ===== src/IdxList/Ends.antt =====
-- What a push and a pop do to the list.
use msh.Prelude.{
  ℕ, ◌-◌, ◌<◌, ◌≤◌, ◌≡◌, ◌⊎◌, inl, inr, true, false, update, none, some, first_pos_cases,
  last_pos_cases, arith,
}
use msh.Memory.{max_crt_per_thread}
use msh.IdxList.{IdxList, vacant, occupied, push_back, pop_back}

pub occupied-some : (l : IdxList) (p : ℕ) → occupied l p ≡ true → (x : ℕ) × (l p ≡ some x)
occupied-some l p h = ground arith

pub occupied-none : (l : IdxList) (p : ℕ) → occupied l p ≡ false → l p ≡ none
occupied-none l p h = ground arith

pub vacant-none : (l : IdxList) (p : ℕ) → vacant l p ≡ true → l p ≡ none
vacant-none l p h = ground arith

-- The outcome of a push into the positions from 1 up to `size`.
pub record Pushed (l : IdxList) (size item p : ℕ) : Type 0 where
  pub lower : 1 ≤ p
  pub upper : p < size
  pub was_free : l p ≡ none
  pub first : (q : ℕ) → 1 ≤ q → q < p → occupied l q ≡ true
  pub result : push_back l size item ≡ (update l p (some item), some p)

pub record IsFull (l : IdxList) (size item : ℕ) : Type 0 where
  pub taken : (q : ℕ) → 1 ≤ q → q < size → occupied l q ≡ true
  pub result : push_back l size item ≡ (l, none)

not-vacant : (l : IdxList) (q : ℕ) → vacant l q ≡ false → occupied l q ≡ true
not-vacant l q h = ground arith

-- A push writes the first free position, or leaves a list without one alone.
pub push_back_cases :
    (l : IdxList) (size item : ℕ) → 1 ≤ size → IsFull l size item ⊎ ((p : ℕ) × Pushed l size item p)
unfolding push_back
push_back_cases l size item h = elim (first_pos_cases (vacant l) (size - 1) 1) [
  | inl (e, miss) ↦ inl (record {
    taken = λ q lo hi. not-vacant l q (miss q lo (omega arith));
    result = rw (e, push_back);
  })
  | inr (p, e, hit) ↦ inr (
    p,
    record {
      lower = hit.lower;
      upper = omega (arith, hit.upper);
      was_free = vacant-none l p hit.holds;
      first = λ q lo hi. not-vacant l q (hit.before q lo hi);
      result = rw (e, push_back);
    },
  )
]

pub record Popped (l : IdxList) (size p item : ℕ) : Type 0 where
  pub lower : 1 ≤ p
  pub upper : p < size
  pub was : l p ≡ some item
  pub last : (q : ℕ) → p < q → q < size → l q ≡ none
  pub result : pop_back l size ≡ (update l p none, some (item, p))

pub record IsEmpty (l : IdxList) (size : ℕ) : Type 0 where
  pub free : (q : ℕ) → 1 ≤ q → q < size → l q ≡ none
  pub result : pop_back l size ≡ (l, none)

-- A pop takes the last item, or leaves a list without one alone.
pub pop_back_cases :
    (l : IdxList) (size : ℕ)
    → 1 ≤ size
    → IsEmpty l size ⊎ ((p : ℕ) × (item : ℕ) × Popped l size p item)
unfolding pop_back
pop_back_cases l size h = elim (last_pos_cases (occupied l) (size - 1)) [
  | inl (e, miss) ↦ inl (record {
    free = λ q lo hi. occupied-none l q (miss q lo (omega arith));
    result = rw (e, pop_back);
  })
  | inr (p, e, hit) ↦
      let (x, was) = occupied-some l p hit.holds in
      inr (
        p,
        x,
        record {
          lower = hit.lower;
          upper = omega (arith, hit.upper);
          was = was;
          last = λ q lo hi. occupied-none l q (hit.after q lo (omega arith));
          result = rw (e, pop_back, was);
        },
      )
]

-- The occupied positions are those from 1 up to some number.
abbrev pub IsPacked : IdxList → Type 0
IsPacked l =
    (p q : ℕ) → 1 ≤ p → p < q → q ≤ max_crt_per_thread → occupied l q ≡ true → occupied l p ≡ true
