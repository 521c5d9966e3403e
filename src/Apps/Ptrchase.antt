-- ===== src/Apps/Ptrchase.antt =====
-- apps/src/primary/ptrchase.cpp: a primary that follows a random cycle of pointers.
-- `rand` and `atoi` are arguments, `rand` as the sequence of its values; what `malloc` gives, if
-- it does, is an array with any content. An `int` that is an index is its low 32 bits; with at most 2 ^ 31 nodes
-- none is negative. The time stamps are arguments of the report.
pub mod Permutation
pub mod Cycle
pub mod Linking
pub mod Links
use msh.Prelude.{
  ℕ, zero, suc, ◌+◌, ◌-◌, ◌*◌, ◌/◌, ◌%◌, ◌^◌, ◌==◌, ltb, if◌then◌else◌, Bool, true, false, ◌&&◌,
  update, for_each, Option, none, some, Outcome, ok, exit, fault, ◌>>=◌,
}

-- ARR_LEN
abbrev pub default_len : ℕ
default_len = 1024 * 64

-- REPS
abbrev pub reps : ℕ
reps = 10

-- `perm[idx] = idx` for each index
pub fill_perm : ℕ → (ℕ → ℕ) → ℕ → ℕ
fill_perm out_len perm = for_each out_len 0 (λ idx x. idx % 2 ^ 32) perm

-- The body of the second loop of `gen_cycle`, with the value of `rand`.
abbrev pub swap_at : ℕ → ℕ → (ℕ → ℕ) → ℕ → ℕ
swap_at idx dst perm = update (update perm idx (perm dst)) dst (perm idx)

-- The second loop, from `idx` for `n` rounds.
pub shuffle : (ℕ → ℕ) → ℕ → ℕ → ℕ → (ℕ → ℕ) → ℕ → ℕ
shuffle rand out_len zero idx perm = perm
shuffle rand out_len (suc n) idx perm =
    shuffle rand out_len n (idx + 1) (swap_at idx (rand idx % out_len) perm)

-- The third loop.
pub write_cycle : ℕ → (ℕ → ℕ) → ℕ → ℕ → (ℕ → ℕ) → ℕ → ℕ
write_cycle out_len perm zero idx out = out
write_cycle out_len perm (suc n) idx out =
    write_cycle out_len perm n (idx + 1) (update out (perm idx) (perm ((idx + 1) % out_len)))

-- `gen_cycle`, with the arrays as they come from `malloc`
pub gen_cycle : (ℕ → ℕ) → (ℕ → ℕ) → (ℕ → ℕ) → ℕ → ℕ → ℕ
unfolding fill_perm shuffle write_cycle
gen_cycle rand perm out out_len =
    write_cycle out_len (shuffle rand out_len out_len 0 (fill_perm out_len perm)) out_len 0 out

-- The `next` pointers of `data_arr`, as indices; `none` is a null pointer.
abbrev pub Nodes : Type 0
Nodes = ℕ → Option ℕ

-- The do-while loop of `init_run` for the job whose nodes start at `base`, with fuel: `none` if the
-- fuel runs out.
pub link_nodes : ℕ → ℕ → (ℕ → ℕ) → ℕ → Nodes → Option Nodes
link_nodes zero base cycle cur nodes = none
link_nodes (suc fuel) base cycle cur nodes =
    let linked = update nodes (base + cur) (some (base + cycle cur)) in
    let rest = link_nodes fuel base cycle (cycle cur) linked in
    if cycle cur == 0 then some linked else rest

-- Which of the requests of the program are granted: `malloc` for the cycle and for the permutation,
-- `mmap`, and the original `pthread_create`.
pub record Granted : Type 0 where
  pub cycle : Bool
  pub perm : Bool
  pub mapped : Bool
  pub thread : Bool

-- `init_run` on a `data_arr` that is null, where `mmap` gives zeroed memory or fails; it fails for a
-- length of 0. An array that `malloc` has not given is a null pointer that `gen_cycle` writes to. There is one job (CORE_NUM * JOBS_PER_CORE is 1), and its nodes start at 0.
pub init_run : (ℕ → ℕ) → (ℕ → ℕ) → (ℕ → ℕ) → Granted → ℕ → Outcome Nodes
unfolding gen_cycle link_nodes
init_run rand perm cycle granted arr_len =
    if granted.mapped
    then (if granted.perm && granted.cycle
        then (elim (link_nodes arr_len 0 (gen_cycle rand perm cycle arr_len) 0 (λ i. none)) [
          | none ↦ fault
          | some nodes ↦ ok nodes
        ])
        else fault)
    else exit

-- The loop of `ptrchase_tq`: `cur = cur->next`, so many times.
pub chase : ℕ → Nodes → ℕ → Outcome ℕ
chase zero nodes cur = ok cur
chase (suc n) nodes cur = elim (nodes cur) [ none ↦ fault | some next ↦ chase n nodes next ]

-- The report of `ptrchase_tq`: the time for a step, in ns, from the ticks of the run.
pub report : ℕ → ℕ → Outcome ℕ
report ticks rep_per_task =
    if rep_per_task / reps == 0
    then fault
    else ok (ticks / reps / (rep_per_task / reps) * 1000 % 2 ^ 64 / 2100)

-- `main`, with the number that `atoi` reads if there is an argument: the length of the array.
pub length_of : Option ℕ → ℕ
length_of none = default_len
length_of (some n) = n

-- `run` and its only thread, if that can be created: the node at which the chase ends, and the
-- report.
pub run : (ℕ → ℕ) → (ℕ → ℕ) → (ℕ → ℕ) → Granted → ℕ → ℕ → Outcome (ℕ × ℕ)
unfolding init_run chase report
run rand perm cycle granted ticks arr_len = init_run rand perm cycle granted arr_len >>= λ nodes.
    if granted.thread
    then (chase (arr_len * reps % 2 ^ 64) nodes 0 >>= λ cur.
        report ticks (arr_len * reps % 2 ^ 64) >>= λ ns. ok (cur, ns))
    else exit
