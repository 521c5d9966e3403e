-- ===== src/Apps/Ptrchase/Links.antt =====
-- The chase along the nodes, and the program as a whole.
use mathlib.Core.Path.{subst}
use msh.Prelude.{
  ℕ, zero, suc, ◌+◌, ◌*◌, ◌/◌, ◌%◌, ◌^◌, ◌<◌, ◌≤◌, ◌≡◌, inl, inr, refl, ap, ◌∙◌, ◌==◌, ==→eq, true,
  false, none, some, ok, Bool-cases, arith,
}
use msh.Apps.Ptrchase.{Nodes, reps, Granted, gen_cycle, init_run, chase, report, run}
use msh.Apps.Ptrchase.Cycle.{after, IsCycle, gen_cycle-IsCycle}
use msh.Apps.Ptrchase.Linking.{after-shift, after-add, last, link_nodes-all}

-- The chase along linked nodes is a walk along the successors.
chase_lem :
    (out : ℕ → ℕ) (nodes : Nodes) (n m v : ℕ)
    → ((v : ℕ) → v < n → nodes v ≡ some (out v))
    → ((v : ℕ) → v < n → out v < n)
    → v < n
    → chase m nodes v ≡ ok (after out m v)
unfolding chase after
chase_lem out nodes n zero v linked within h = refl
chase_lem out nodes n (suc m) v linked within h =
    rw (chase, linked v h)
      (chase_lem out nodes n m (out v) linked within (within v h) ∙ ap ok (after-shift out m v))

within_lem : {n : ℕ} {out : ℕ → ℕ} → IsCycle n out → (v : ℕ) → v < n → out v < n
unfolding after
within_lem {n} {out} c v h =
    let (k, hk, at) = c.covers v h in
    elim (Bool-cases (suc k == n)) [
      | inl e ↦
          let ends : out (after out k 0) ≡ 0 = last c 0 k (==→eq (suc k) n e) in
          omega (arith, ends, ap out at)
      | inr e ↦ let inside = c.within (suc k) (ground arith) in omega (arith, inside, ap out at)
    ]

-- After whole rounds of the cycle, one is back at 0.
after_rounds : {n : ℕ} {out : ℕ → ℕ} → IsCycle n out → (r : ℕ) → after out (n * r) 0 ≡ 0
unfolding after
after_rounds {n} {out} c zero = ap (λ i. after out i 0) {y = 0} (omega arith)
after_rounds {n} {out} c (suc r) =
    ap (λ i. after out i 0) {y = n + n * r} (ground arith)
    ∙ after-add out n (n * r) 0
    ∙ ap (after out n) (after_rounds c r)
    ∙ c.closes

abbrev pub all_granted : Granted
all_granted = record { cycle = true; perm = true; mapped = true; thread = true }

-- Whatever numbers `rand` gives, for an array of 1 to 2 ^ 31 nodes, with all memory granted, `init_run`
-- returns: its do-while loop ends, and every node of the array points to the successor that
-- `gen_cycle` gives it, which is one cycle through the array.
pub init_run-links :
    (rand perm cycle : ℕ → ℕ) (n : ℕ)
    → 0 < n
    → n ≤ 2 ^ 31
    → (nodes : Nodes) × (init_run rand perm cycle all_granted n ≡ ok nodes)
      × ((v : ℕ) → v < n → nodes v ≡ some (gen_cycle rand perm cycle n v))
unfolding init_run
init_run-links rand perm cycle n some_ small =
    let (nodes, ran, all) =
      link_nodes-all (gen_cycle-IsCycle rand perm cycle n some_ small) 0 (λ i. none) some_ in
    (
      nodes,
      rw ran refl,
      λ v h.
          subst (λ i. nodes i ≡ some (0 + gen_cycle rand perm cycle n v)) (omega arith) (all v h)
          ∙ ap some (omega arith),
    )

report_lem :
    (n ticks : ℕ) → 0 < n → report ticks (n * reps) ≡ ok (ticks / reps / n * 1000 % 2 ^ 64 / 2100)
unfolding report
report_lem n ticks h =
    let whole : n * reps / reps ≡ n = omega arith in
    let more : (n == 0) ≡ false = ground arith in rw (whole, more) refl

-- The whole program on 1 to 2 ^ 31 nodes, where `malloc` and `mmap` grant the memory and
-- `pthread_create` makes the thread: it ends without following a null
-- pointer or dividing by 0, the chase of ten rounds ends at the node where it started, and the time
-- reported is that of one step.
pub run_ends :
    (rand perm cycle : ℕ → ℕ) (ticks n : ℕ)
    → 0 < n
    → n ≤ 2 ^ 31
    → run rand perm cycle all_granted ticks n ≡ ok (0, ticks / reps / n * 1000 % 2 ^ 64 / 2100)
unfolding run
run_ends rand perm cycle ticks n some_ small =
    let c = gen_cycle-IsCycle rand perm cycle n some_ small in
    let (nodes, ran, all) = init_run-links rand perm cycle n some_ small in
    let fits : n * reps % 2 ^ 64 ≡ n * reps = omega arith in
    rw
      (
        ran,
        fits,
        chase_lem (gen_cycle rand perm cycle n) nodes n (n * reps) 0 all (within_lem c) some_,
        after_rounds c reps,
        report_lem n ticks some_,
      )
      refl
