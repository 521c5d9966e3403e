-- ===== src/IdxList/Push.antt =====
-- A push after a pop, and what the scans say of the list.
use msh.Prelude.{
  Bool, true, ℕ, zero, suc, ◌+◌, ◌<◌, ◌≤◌, ◌≡◌, ◌⊎◌, inl, inr, refl, fun_ext, false, ltb, update,
  Option, none, some, negsuc, count_pos, first_pos_cases, count_pos-le, count_pos_gain, Bool-cases,
  arith,
}
use msh.Memory.{max_crt_per_thread}
use msh.IdxList.{
  IdxList, occupied, push_back, pop_back, find_unfinished_crt, hosted, need_more_scav,
}
use msh.IdxList.Ends.{
  occupied-some, occupied-none, Pushed, IsFull, push_back_cases, Popped, IsPacked,
}

-- Pushing an item raises the count by one.
pub hosted-push :
    (l : IdxList) (p x : ℕ)
    → 1 ≤ p
    → p ≤ max_crt_per_thread
    → l p ≡ none
    → hosted (update l p (some x)) ≡ hosted l + 1
unfolding hosted
hosted-push l p x lo hi e =
    count_pos_gain (occupied l) (occupied (update l p (some x))) max_crt_per_thread 1 p lo
      (omega arith) (ground arith) (ground arith) (λ q ne. ground arith)

pub hosted-pop :
    (l : IdxList) (p x : ℕ)
    → 1 ≤ p
    → p ≤ max_crt_per_thread
    → l p ≡ some x
    → hosted l ≡ hosted (update l p none) + 1
unfolding hosted
hosted-pop l p x lo hi e =
    count_pos_gain (occupied (update l p none)) (occupied l) max_crt_per_thread 1 p lo (omega arith)
      (ground arith) (ground arith) (λ q ne. ground arith)

-- The item that a pop takes out of a packed list goes back to where it was.
pub push-pop_packed :
    (l : IdxList) (p item : ℕ)
    → IsPacked l
    → Popped l (max_crt_per_thread + 1) p item
    → push_back (pop_back l (max_crt_per_thread + 1)).0 (max_crt_per_thread + 1) item ≡ (l, some p)
push-pop_packed l p item packed h =
    elim (push_back_cases (update l p none) (max_crt_per_thread + 1) item (omega arith)) [
      | inl full ↦ absurd (lem1 full)
      | inr (q, pushed) ↦ rw (h.result, pushed.result) (again q pushed)
    ]
  where
    lem1 : IsFull (update l p none) (max_crt_per_thread + 1) item → ⊥
    lem1 full = ground (arith, full.taken p h.lower h.upper)

    same : (q : ℕ) → Pushed (update l p none) (max_crt_per_thread + 1) item q → q ≡ p
    same q pushed = elim (Bool-cases (ltb q p)) [
      | inl below ↦ ground (arith, packed q p pushed.lower, pushed.was_free, h.was, h.upper)
      | inr above ↦ elim (Bool-cases (ltb p q)) [
        | inl over ↦ ground (arith, pushed.first p h.lower)
        | inr e ↦ ground arith
      ]
    ]

    again :
        (q : ℕ)
        → Pushed (update l p none) (max_crt_per_thread + 1) item q
        → ◌≡◌ {A = IdxList × Option ℕ} (update (update l p none) q (some item), some q) (l, some p)
    again q pushed = rw (same q pushed) (λ i. (fun_ext restored i, some p))
      where
        restored : (j : ℕ) → update (update l p none) p (some item) j ≡ l j
        restored j = ground (arith, h.was)

pub need_more_scav_negative : (m : ℕ) (l : IdxList) → need_more_scav (negsuc m) l ≡ 0
unfolding need_more_scav
need_more_scav_negative m l = refl

pub record FirstUnfinished (l : IdxList) (p : ℕ) : Type 0 where
  pub lower : 1 ≤ p
  pub upper : p ≤ max_crt_per_thread
  pub holds : (x : ℕ) × (l p ≡ some x)
  pub result : find_unfinished_crt l ≡ p

pub record AllFinished (l : IdxList) : Type 0 where
  pub free : (q : ℕ) → 1 ≤ q → q ≤ max_crt_per_thread → l q ≡ none
  pub result : find_unfinished_crt l ≡ 0

-- The search finds a hosted scavenger and gives its position, or nothing is hosted and it gives 0.
pub find_unfinished_cases : (l : IdxList) → AllFinished l ⊎ ((p : ℕ) × FirstUnfinished l p)
unfolding find_unfinished_crt
find_unfinished_cases l = elim (first_pos_cases (occupied l) max_crt_per_thread 1) [
  | inl (e, miss) ↦ inl (record {
    free = λ q lo hi. occupied-none l q (miss q lo (omega arith));
    result = rw (e, find_unfinished_crt);
  })
  | inr (p, e, hit) ↦ inr (
    p,
    record {
      lower = hit.lower;
      upper = omega (arith, hit.upper);
      holds = occupied-some l p hit.holds;
      result = rw (e, find_unfinished_crt);
    },
  )
]

-- Nothing is hosted exactly when the search for an unfinished scavenger fails.
pub hosted-zero : (l : IdxList) → AllFinished l → hosted l ≡ 0
unfolding hosted count_pos
hosted-zero l all = none_counted max_crt_per_thread 1 (λ q lo hi. rw (all.free q lo (omega arith)))
  where
    none_counted :
        (n i : ℕ)
        → ((q : ℕ) → i ≤ q → q < i + n → occupied l q ≡ false)
        → count_pos (occupied l) n i ≡ 0
    none_counted zero i h = refl
    none_counted (suc n) i h = ground (
      arith,
      h i (omega arith) (omega arith),
      none_counted n (i + 1) (λ q lo hi. h q (omega arith) (omega arith)),
    )

pub hosted-le : (l : IdxList) → hosted l ≤ max_crt_per_thread
unfolding hosted
hosted-le l = count_pos-le (occupied l) max_crt_per_thread 1

pub all_finished : (l : IdxList) → ((q : ℕ) → q ≤ max_crt_per_thread → l q ≡ none) → AllFinished l
all_finished l empty = elim (find_unfinished_cases l) [
  | inl all ↦ all
  | inr (p, u) ↦ absurd (ground (arith, u.holds.1, empty p u.upper))
]

all_counted :
    (test : ℕ → Bool) (n i : ℕ)
    → ((q : ℕ) → i ≤ q → q < i + n → test q ≡ true)
    → count_pos test n i ≡ n
unfolding count_pos
all_counted test zero i all = refl
all_counted test (suc n) i all =
    rw
      (
        all i (omega arith) (omega arith),
        all_counted test n (i + 1) (λ q lo hi. all q (omega arith) (omega arith)),
      )
      (omega arith)

-- A list without a free position hosts as many as there are positions.
pub hosted-full :
    (l : IdxList)
    → ((q : ℕ) → 1 ≤ q → q ≤ max_crt_per_thread → occupied l q ≡ true)
    → hosted l ≡ max_crt_per_thread
unfolding hosted
hosted-full l all =
    all_counted (occupied l) max_crt_per_thread 1 (λ q lo hi. all q lo (omega arith))
