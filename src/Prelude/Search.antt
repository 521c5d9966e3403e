-- ===== src/Prelude/Search.antt =====
-- Loops over a range of positions that stop at the first hit, from below or from above, and the
-- loop that counts the hits.
use Prim.Native.Nat.{ℕ, zero, suc, ◌+◌, ◌<◌, ◌≤◌}
use mathlib.Core.Path.{◌≡◌, refl}
use mathlib.Core.Logic.{◌≢◌, ◌⊎◌, inl, inr}
use mathlib.Core.Bool.{Bool, true, false}
use mathlib.Core.Option.{Option, none, some}
use native.Mathlib.Omega.{arith}
use msh.Prelude.Tests.{if◌then◌else◌, ◌==◌, Bool-cases}

-- `for (p = i; p < i + n; p++) if (test(p)) break;`, with `none` for a loop that runs out.
unfoldable pub first_pos : (ℕ → Bool) → ℕ → ℕ → Option ℕ
first_pos test zero i = none
first_pos test (suc n) i = let rest = first_pos test n (i + 1) in if test i then some i else rest

-- `for (p = n; p > 0; p--) if (test(p)) break;`
unfoldable pub last_pos : (ℕ → Bool) → ℕ → Option ℕ
last_pos test zero = none
last_pos test (suc n) = let rest = last_pos test n in if test (suc n) then some (suc n) else rest

-- `for (p = i; p < i + n; p++) if (test(p)) counts++;`
unfoldable pub count_pos : (ℕ → Bool) → ℕ → ℕ → ℕ
count_pos test zero i = 0
count_pos test (suc n) i = (if test i then 1 else 0) + count_pos test n (i + 1)

-- What a search that starts at `i` and makes `n` rounds has found.
pub record Hit (test : ℕ → Bool) (n i p : ℕ) : Type 0 where
  pub lower : i ≤ p
  pub upper : p < i + n
  pub holds : test p ≡ true
  pub before : (q : ℕ) → i ≤ q → q < p → test q ≡ false

abbrev pub Miss : (ℕ → Bool) → ℕ → ℕ → Type 0
Miss test n i = (q : ℕ) → i ≤ q → q < i + n → test q ≡ false

Miss-suc : (test : ℕ → Bool) (n i : ℕ) → test i ≡ false → Miss test n (i + 1) → Miss test (suc n) i
Miss-suc test n i no_hit rest q lo hi = elim (Bool-cases (i == q)) [
  | inl e ↦ ground arith
  | inr e ↦ rest q (ground arith) (omega arith)
]

Hit-suc :
    (test : ℕ → Bool) (n i p : ℕ) → test i ≡ false → Hit test n (i + 1) p → Hit test (suc n) i p
Hit-suc test n i p no_hit h = record {
  lower = omega arith;
  upper = omega arith;
  holds = h.holds;
  before = λ q lo hi. elim (Bool-cases (i == q)) [
    | inl e ↦ ground arith
    | inr e ↦ h.before q (ground arith) hi
  ];
}

pub first_pos_cases :
    (test : ℕ → Bool) (n i : ℕ)
    → ((first_pos test n i ≡ none) × Miss test n i)
      ⊎ ((p : ℕ) × (first_pos test n i ≡ some p) × Hit test n i p)
unfolding first_pos
first_pos_cases test zero i = inl (refl, λ q lo hi. absurd (omega arith))
first_pos_cases test (suc n) i = elim (Bool-cases (test i)) [
  | inl e ↦ inr (
    i,
    rw e,
    record {
      lower = omega arith;
      upper = omega arith;
      holds = e;
      before = λ q lo hi. absurd (omega arith);
    },
  )
  | inr e ↦ elim (first_pos_cases test n (i + 1)) [
    | inl (none_left, miss) ↦ inl (rw e none_left, Miss-suc test n i e miss)
    | inr (p, found, hit) ↦ inr (p, rw e found, Hit-suc test n i p e hit)
  ]
]

pub record LastHit (test : ℕ → Bool) (n p : ℕ) : Type 0 where
  pub lower : 1 ≤ p
  pub upper : p ≤ n
  pub holds : test p ≡ true
  pub after : (q : ℕ) → p < q → q ≤ n → test q ≡ false

pub last_pos_cases :
    (test : ℕ → Bool) (n : ℕ)
    → ((last_pos test n ≡ none) × ((q : ℕ) → 1 ≤ q → q ≤ n → test q ≡ false))
      ⊎ ((p : ℕ) × (last_pos test n ≡ some p) × LastHit test n p)
unfolding last_pos
last_pos_cases test zero = inl (refl, λ q lo hi. absurd (omega arith))
last_pos_cases test (suc n) = elim (Bool-cases (test (suc n))) [
  | inl e ↦ inr (
    suc n,
    rw e,
    record {
      lower = omega arith;
      upper = omega arith;
      holds = e;
      after = λ q lo hi. absurd (omega arith);
    },
  )
  | inr e ↦ elim (last_pos_cases test n) [
    | inl (none_left, miss) ↦ inl (
      rw e none_left,
      λ q lo hi. elim (Bool-cases (suc n == q)) [
        | inl same ↦ ground arith
        | inr other ↦ miss q lo (ground arith)
      ],
    )
    | inr (p, found, hit) ↦ inr (
      p,
      rw e found,
      record {
        lower = hit.lower;
        upper = omega (arith, hit.upper);
        holds = hit.holds;
        after = λ q lo hi. elim (Bool-cases (suc n == q)) [
          | inl same ↦ ground arith
          | inr other ↦ hit.after q lo (ground arith)
        ];
      },
    )
  ]
]

pub count_pos-le : (test : ℕ → Bool) (n i : ℕ) → count_pos test n i ≤ n
unfolding count_pos
count_pos-le test zero i = omega arith
count_pos-le test (suc n) i = ground (arith, count_pos-le test n (i + 1))

-- Tests that agree on the range count alike.
pub count_pos_congr :
    (test test' : ℕ → Bool) (n i : ℕ)
    → ((q : ℕ) → i ≤ q → q < i + n → test q ≡ test' q)
    → count_pos test n i ≡ count_pos test' n i
unfolding count_pos
count_pos_congr test test' zero i h = refl
count_pos_congr test test' (suc n) i h = ground (
  arith,
  h i (omega arith) (omega arith),
  count_pos_congr test test' n (i + 1) (λ q lo hi. h q (omega arith) (omega arith)),
)

-- A test that gains the one position `p` counts one more.
pub count_pos_gain :
    (test test' : ℕ → Bool) (n i p : ℕ)
    → i ≤ p
    → p < i + n
    → test p ≡ false
    → test' p ≡ true
    → ((q : ℕ) → p ≢ q → test' q ≡ test q)
    → count_pos test' n i ≡ count_pos test n i + 1
unfolding count_pos
count_pos_gain test test' zero i p lo hi old new other = absurd (omega arith)
count_pos_gain test test' (suc n) i p lo hi old new other = elim (Bool-cases (i == p)) [
  | inl e ↦
      ground (arith, count_pos_congr test' test n (i + 1) (λ q lo' hi'. other q (ground arith)))
  | inr e ↦ ground (
    arith,
    other i (ground arith),
    count_pos_gain test test' n (i + 1) p (ground arith) (omega arith) old new other,
  )
]
