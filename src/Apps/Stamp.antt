-- ===== src/Apps/Stamp.antt =====
-- apps/src/primary/ptrchase.cpp and apps/src/scavengers/compute.cpp: the time stamps that both take
-- from the processor, with the same functions. What the processor counts is an argument: `rdtsc`
-- gives the counter in two halves, the low 32 bits in `rax` and the high ones in `rdx`.
use msh.Prelude.{ℕ, ◌+◌, ◌-◌, ◌*◌, ◌/◌, ◌%◌, ◌^◌, ◌<◌, ◌≡◌, ap, ◌∙◌, bit_or, bit_or_halves, arith}

-- `shl $32, %rdx` and `or %rdx, %rax`
pub start64_rdtsc : ℕ → ℕ → ℕ
start64_rdtsc rax rdx = bit_or (rdx * 2 ^ 32 % 2 ^ 64) rax

-- The counter at `rdtscp`, which leaves the number of the processor in `rcx`.
pub stop64_rdtsc : ℕ → ℕ → ℕ
stop64_rdtsc rax rdx = bit_or (rdx * 2 ^ 32 % 2 ^ 64) rax

-- `start64_ts` and `stop64_ts`, by the counter of 64 bits.
pub start64_ts : ℕ → ℕ
unfolding start64_rdtsc
start64_ts counter = start64_rdtsc (counter % 2 ^ 32) (counter / 2 ^ 32)

pub stop64_ts : ℕ → ℕ
unfolding stop64_rdtsc
stop64_ts counter = stop64_rdtsc (counter % 2 ^ 32) (counter / 2 ^ 32)

-- `end - start`
pub elapsed : ℕ → ℕ → ℕ
unfolding start64_ts stop64_ts
elapsed first last = (stop64_ts last + 2 ^ 64 - start64_ts first) % 2 ^ 64

-- A stamp is the counter itself.
stamp_lem : (c : ℕ) → c < 2 ^ 64 → (start64_ts c ≡ c) × (stop64_ts c ≡ c)
unfolding start64_ts stop64_ts
stamp_lem c small =
    let same = bit_or_halves (c % 2 ^ 32) (c / 2 ^ 32) (omega arith) (omega arith) in
    (same ∙ omega arith, same ∙ omega arith)

-- The difference of two stamps is the number of ticks between them, for less than 2 ^ 64 ticks, also
-- where the counter of 64 bits wraps round.
pub elapsed_lem :
    (first ticks : ℕ)
    → first < 2 ^ 64
    → ticks < 2 ^ 64
    → elapsed first ((first + ticks) % 2 ^ 64) ≡ ticks
unfolding elapsed
elapsed_lem first ticks small small' =
    let one = stamp_lem first small in
    let other = stamp_lem ((first + ticks) % 2 ^ 64) (omega arith) in
    ap (λ x. (stop64_ts ((first + ticks) % 2 ^ 64) + 2 ^ 64 - x) % 2 ^ 64) one.0
    ∙ ap (λ x. (x + 2 ^ 64 - first) % 2 ^ 64) other.1
    ∙ omega arith
