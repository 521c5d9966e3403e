-- ===== src/Apps/Compute/Sums.antt =====
-- What `compute` adds up, and how long its numbers may get.
use mathlib.Core.Path.{subst}
use msh.Prelude.{
  ℕ, zero, suc, ◌+◌, ◌-◌, ◌*◌, ◌/◌, ◌%◌, ◌^◌, ◌<◌, ◌≤◌, ◌≡◌, inl, inr, refl, ap, ◌∙◌, ltb, true,
  false, Option, none, some, pos, Outcome, ok, fault, ◌>>=◌, Bool-cases, arith,
}
use msh.Apps.Compute.{Globals, add_up, repeat, compute}

-- The sum of the numbers below `n`.
triangle : ℕ → ℕ
triangle zero = 0
triangle (suc n) = triangle n + n

triangle_double : (n : ℕ) → triangle n * 2 + n ≡ n * n
unfolding triangle
triangle_double zero = refl
triangle_double (suc n) = ground (arith, triangle_double n)

triangle-le : (n m : ℕ) → triangle n ≤ triangle (n + m)
unfolding triangle
triangle-le n zero =
    subst (λ k. triangle n ≤ triangle k) {x = n} {y = n + 0} (omega arith) (omega arith)
triangle-le n (suc m) =
    subst (λ k. triangle n ≤ triangle k) {x = suc (n + m)} (omega arith)
      (omega (arith, triangle-le n m))

triangle_mono : (n m : ℕ) → n ≤ m → triangle n ≤ triangle m
triangle_mono n m h = subst (λ k. triangle n ≤ triangle k) (omega arith) (triangle-le n (m - n))

-- 65536 numbers fit an `int`, and 65537 do not.
triangle_fits : (n : ℕ) → n ≤ 65536 → triangle n < 2 ^ 31
triangle_fits n h = omega (arith, triangle_mono n 65536 h, triangle_double 65536)

triangle_overflows : (n : ℕ) → 65536 < n → 2 ^ 31 ≤ triangle n
triangle_overflows n h = omega (arith, triangle_mono 65537 n (omega arith), triangle_double 65537)

triangle_closed : (n : ℕ) → triangle n ≡ n * (n - 1) / 2
unfolding triangle
triangle_closed zero = refl
triangle_closed (suc n) =
    let doubled : suc n * (suc n - 1) ≡ triangle (suc n) * 2 =
      ground (arith, triangle_double (suc n)) in
    omega (arith, doubled)

add_up_fits :
    (n i : ℕ) → triangle (i + n) < 2 ^ 31 → add_up n i (triangle i) ≡ ok (triangle (i + n))
unfolding add_up triangle
add_up_fits zero i h = ap (λ k. ok (triangle k)) (omega arith)
add_up_fits (suc n) i h =
    let same : i + 1 + n ≡ i + suc n = omega arith in
    let next : triangle i + i ≡ triangle (i + 1) = ap triangle {x = suc i} (omega arith) in
    let fits : ltb (triangle i + i) (2 ^ 31) ≡ true =
      ground (arith, next, ap triangle same, triangle-le (i + 1) n) in
    rw fits (
      ap (add_up n (i + 1)) next
      ∙ add_up_fits n (i + 1) (omega (arith, ap triangle same))
      ∙ ap (λ k. ok (triangle k)) same)

add_up_overflows :
    (n i : ℕ) → triangle i < 2 ^ 31 → 2 ^ 31 ≤ triangle (i + n) → add_up n i (triangle i) ≡ fault
unfolding add_up triangle
add_up_overflows zero i lo hi =
    absurd (omega (arith, ap triangle {x = i + 0} {y = i} (omega arith)))
add_up_overflows (suc n) i lo hi =
    let same : i + 1 + n ≡ i + suc n = omega arith in
    let next : triangle i + i ≡ triangle (i + 1) = ap triangle {x = suc i} (omega arith) in
    elim (Bool-cases (ltb (triangle i + i) (2 ^ 31))) [
      | inr over ↦ rw over refl
      | inl fits ↦ rw fits (
          ap (add_up n (i + 1)) next
          ∙ add_up_overflows n (i + 1) (ground (arith, next)) (omega (arith, ap triangle same)))
    ]

-- The inner loop, by the number of its rounds.
add_up_whole : (c : ℕ) → c ≤ 65536 → add_up c 0 0 ≡ ok (c * (c - 1) / 2)
unfolding triangle
add_up_whole c h =
    let same : triangle (0 + c) ≡ c * (c - 1) / 2 = ap triangle (omega arith) ∙ triangle_closed c in
    add_up_fits c 0 (subst (λ k. triangle k < 2 ^ 31) {x = c} (omega arith) (triangle_fits c h))
    ∙ ap ok same

step_mod : (sum x k : ℕ) → ((sum + x) % 2 ^ 64 + k * x) % 2 ^ 64 ≡ (sum + suc k * x) % 2 ^ 64
step_mod sum x k = let whole : suc k * x ≡ x + k * x = ground arith in omega (arith, whole)

repeat_lem :
    (k fuel c x total rep sum : ℕ)
    → add_up c 0 0 ≡ ok x
    → rep + 1 + k ≡ total
    → total < 2 ^ 64
    → k < fuel
    → sum < 2 ^ 64
    → repeat fuel (pos c) total rep sum ≡ ok (some ((sum + k * x) % 2 ^ 64))
unfolding repeat
repeat_lem k zero c x total rep sum adds e small f s = absurd (omega arith)
repeat_lem zero (suc fuel) c x total rep sum adds e small f s =
    let stops : ltb ((rep + 1) % 2 ^ 64) total ≡ false = ground arith in
    rw stops (ap (λ r. ok (some r)) (omega arith))
repeat_lem (suc k) (suc fuel) c x total rep sum adds e small f s =
    let goes_on : ltb ((rep + 1) % 2 ^ 64) total ≡ true = ground arith in
    let next : (rep + 1) % 2 ^ 64 ≡ rep + 1 = omega arith in
    rw (goes_on, adds, next)
      (repeat_lem k fuel c x total (rep + 1) ((sum + x) % 2 ^ 64) adds (omega arith) small
          (omega arith) (omega arith)
        ∙ ap (λ r. ok (some r)) (step_mod sum x k))

repeat_overflows :
    (fuel c total rep sum : ℕ)
    → add_up c 0 0 ≡ fault
    → (rep + 1) % 2 ^ 64 < total
    → repeat (suc fuel) (pos c) total rep sum ≡ fault
unfolding repeat
repeat_overflows fuel c total rep sum adds more =
    let goes_on : ltb ((rep + 1) % 2 ^ 64) total ≡ true = ground arith in rw (goes_on, adds) refl

-- With at most 65536 numbers to add and at least one repetition, `compute` returns. It has added the
-- sum of the numbers below `comp_len` once less than `total_reps` says, modulo 2 ^ 64, and it has
-- set `run_time` to what the counter has gone on by.
pub compute_lem :
    (start end c : ℕ) (g : Globals)
    → g.comp_len ≡ pos c
    → c ≤ 65536
    → 0 < g.total_reps
    → g.total_reps < 2 ^ 64
    → g.gsum < 2 ^ 64
    → compute start end g
      ≡ ok (
          some (record g {
            gsum = (g.gsum + (g.total_reps - 1) * (c * (c - 1) / 2)) % 2 ^ 64;
            run_time = (end + 2 ^ 64 - start) % 2 ^ 64;
          }))
unfolding compute
compute_lem start end c g e h some_ small s =
    let ran : repeat (g.total_reps + 1) g.comp_len g.total_reps 0 g.gsum
        ≡ ok (some ((g.gsum + (g.total_reps - 1) * (c * (c - 1) / 2)) % 2 ^ 64)) =
      ap (λ l. repeat (g.total_reps + 1) l g.total_reps 0 g.gsum) e
      ∙ repeat_lem (g.total_reps - 1) (g.total_reps + 1) c (c * (c - 1) / 2) g.total_reps 0 g.gsum
          (add_up_whole c h) (omega arith) small (omega arith) s in
    ap
      (λ (o : Outcome (Option ℕ)). o >>= λ o. ok (elim o [
        | none ↦ none
        | some sum ↦ some (record g { gsum = sum; run_time = (end + 2 ^ 64 - start) % 2 ^ 64 })
      ]))
      ran

-- With more than 65536 numbers to add and at least two repetitions, the `int` overflows in the
-- first of them.
pub compute_overflows :
    (start end c : ℕ) (g : Globals)
    → g.comp_len ≡ pos c
    → 65536 < c
    → 1 < g.total_reps
    → compute start end g ≡ fault
unfolding compute triangle
compute_overflows start end c g e h more =
    let over : add_up c 0 0 ≡ fault =
      add_up_overflows c 0 (omega arith)
        (subst (λ k. 2 ^ 31 ≤ triangle k) {x = c} (omega arith) (triangle_overflows c h)) in
    let ran : repeat (g.total_reps + 1) g.comp_len g.total_reps 0 g.gsum ≡ fault =
      ap (λ l. repeat (g.total_reps + 1) l g.total_reps 0 g.gsum) e
      ∙ ap (λ f. repeat f (pos c) g.total_reps 0 g.gsum) {y = suc g.total_reps} (omega arith)
      ∙ repeat_overflows g.total_reps c g.total_reps 0 g.gsum over (omega arith) in
    rw ran refl
