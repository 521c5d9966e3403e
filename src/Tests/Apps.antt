-- ===== src/Tests/Apps.antt =====
-- The sample programs on small inputs.
use msh.Prelude.{ℕ, ◌+◌, ◌-◌, ◌*◌, ◌^◌, ◌≡◌, refl, some, pos, ok, fault, arith}
use msh.Apps.Stamp.{elapsed, elapsed_lem}
use msh.Apps.Ptrchase.{gen_cycle, run}
use msh.Apps.Ptrchase.Cycle.{IsCycle, gen_cycle-IsCycle}
use msh.Apps.Ptrchase.Links.{all_granted, run_ends}
use msh.Apps.Compute.{Globals, initial, compute}
use msh.Apps.Compute.Sums.{compute_lem, compute_overflows}

elapsed_lem_example : elapsed (2 ^ 64 - 5) 12 ≡ 17
elapsed_lem_example = elapsed_lem (2 ^ 64 - 5) 17 (omega arith) (omega arith)

-- The numbers that `rand` gives.
abbrev draws : ℕ → ℕ
draws k = k * 7 + 5

abbrev garbage : ℕ → ℕ
garbage i = i + 77

gen_cycle-IsCycle_example : IsCycle 3 (gen_cycle draws garbage garbage 3)
gen_cycle-IsCycle_example = gen_cycle-IsCycle draws garbage garbage 3 (omega arith) (omega arith)

run_ends_example : run draws garbage garbage all_granted 420000 3 ≡ ok (0, 6666)
run_ends_example = run_ends draws garbage garbage 420000 3 (omega arith) (omega arith)

compute_lem_example :
    compute 400 2500 initial ≡ ok (some (record initial { gsum = 4499999955; run_time = 2100 }))
compute_lem_example =
    compute_lem 400 2500 10 initial refl (omega arith) (omega arith) (omega arith) (omega arith)

-- Too many numbers.
abbrev greedy : Globals
greedy = record initial { comp_len = pos 70000 }

compute_overflows_example : compute 400 2500 greedy ≡ fault
compute_overflows_example = compute_overflows 400 2500 70000 greedy refl (omega arith) (omega arith)
