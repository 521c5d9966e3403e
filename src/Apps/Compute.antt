-- ===== src/Apps/Compute.antt =====
-- apps/src/scavengers/compute.cpp: a scavenger that adds up numbers.
-- `atoi` and `stoull` are arguments, as what they read; `stoull` gives `none` where it throws, which
-- nothing catches. The variables of the object that the runtime sets, `argc`, `argv` and `crt_pos` as
-- it is at the return, are arguments of `entry` too, and so are the time stamps.
pub mod Sums
use msh.Prelude.{
  ℕ, zero, suc, ◌+◌, ◌-◌, ◌*◌, ◌/◌, ◌%◌, ◌^◌, ◌==◌, ltb, if◌then◌else◌, Bool, true, false, Option,
  none, some, List, [], ◌∷◌, ℤ, pos, negsuc, Outcome, ok, exit, fault, ◌>>=◌,
}

-- The variables `total_reps`, `gsum`, `comp_len` and `run_time`.
pub record Globals : Type 0 where
  pub total_reps : ℕ
  pub gsum : ℕ
  pub comp_len : ℤ
  pub run_time : ℕ

abbrev pub initial : Globals
initial = record { total_reps = 100 * 1000 * 1000; gsum = 0; comp_len = pos 10; run_time = 0 }

-- The number of rounds of `for (int i = 0; i < comp_len; i++)`
abbrev pub rounds : ℤ → ℕ
rounds (pos c) = c
rounds (negsuc c) = 0

-- That loop from `i` and `x` on, for `n` rounds; an `int` that overflows is a fault.
pub add_up : ℕ → ℕ → ℕ → Outcome ℕ
add_up zero i x = ok x
add_up (suc n) i x =
    let rest = add_up n (i + 1) (x + i) in if ltb (x + i) (2 ^ 31) then rest else fault

-- `while (++rep < total_reps)`, with fuel: `gsum` at the end, `none` if the fuel runs out.
pub repeat : ℕ → ℤ → ℕ → ℕ → ℕ → Outcome (Option ℕ)
unfolding add_up
repeat zero comp_len total rep gsum = ok none
repeat (suc fuel) comp_len total rep gsum =
    let next = (rep + 1) % 2 ^ 64 in
    let rest = λ (x : ℕ). repeat fuel comp_len total next ((gsum + x) % 2 ^ 64) in
    if ltb next total then (add_up (rounds comp_len) 0 0 >>= rest) else ok (some gsum)

-- `compute`, where the time stamp counter is `start` and then `end`; one round of the loop for each
-- number below `total_reps` at most.
pub compute : ℕ → ℕ → Globals → Outcome (Option Globals)
unfolding repeat
compute start end g = repeat (g.total_reps + 1) g.comp_len g.total_reps 0 g.gsum >>= λ o.
    ok (elim o [
      | none ↦ none
      | some sum ↦ some (record g { gsum = sum; run_time = (end + 2 ^ 64 - start) % 2 ^ 64 })
    ])

-- The arguments of `entry`, if there are any: `argv[1]` and `argv[2]`, where the array ends with its
-- last entry.
pub configure : (List ℕ → ℤ) → (List ℕ → Option ℕ) → ℕ → List (List ℕ) → Globals → Outcome Globals
configure atoi stoull argc args g = if ltb 1 argc then second args else ok g
  where
    second : List (List ℕ) → Outcome Globals
    second [] = fault
    second (a ∷ []) = fault
    second (a ∷ b ∷ []) = fault
    second (a ∷ b ∷ c ∷ rest) = elim (stoull c) [
      | none ↦ fault
      | some reps ↦ ok (record g { comp_len = atoi b; total_reps = reps })
    ]

-- The time per repetition that `entry` reports, in ns.
pub per_task : Globals → Outcome ℕ
per_task g =
    if g.total_reps == 0 then fault else ok (g.run_time * 1000 % 2 ^ 64 / 2100 / g.total_reps)

-- `entry`: what is reported, the variables, and the value that is returned.
pub entry :
    (List ℕ → ℤ)
    → (List ℕ → Option ℕ)
    → ℕ
    → ℕ
    → ℕ
    → List (List ℕ)
    → ℕ
    → Globals
    → Outcome (Option (ℕ × Globals × ℕ))
unfolding compute configure per_task
entry atoi stoull start end argc args crt_pos g =
    configure atoi stoull argc args g >>= compute start end >>= λ o. elim o [
      | none ↦ ok none
      | some g1 ↦ per_task g1 >>= λ ns. ok (some (ns, g1, crt_pos))
    ]
