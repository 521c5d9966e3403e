-- ===== src/Stack.antt =====
-- libmsh/msh.h and libmsh/msh.c: the stack in each entry of SCAV_TABLE, and what `ret_to_scheduler`
-- does to the stack pointer. The last 8 bytes that a coroutine can use are those of `ret_to_sched`,
-- behind its stack.
use msh.Prelude.{
  ℕ, ◌+◌, ◌-◌, ◌*◌, ◌%◌, ◌<◌, ◌≤◌, ◌≡◌, ◌≢◌, ◌⊎◌, inl, inr, ◌==◌, ltb, if◌then◌else◌, Bool-cases,
  arith,
}
use msh.Memory.{crt_stack_sz, sizeof_coroutine_ctx, offset_stack, Loader}
use msh.Allocate.{initial_sp}

-- `SCAV_TABLE[i].stack`
abbrev pub stack_start : Loader → ℕ → ℕ
stack_start L i = L.scav_base + i * sizeof_coroutine_ctx + offset_stack

-- The test of the stack pointer in `ret_to_scheduler`, and the subtraction.
pub adjust_sp : ℕ → ℕ
adjust_sp rsp = if rsp % 16 == 0 then rsp else rsp - 8

entries_apart : (L : Loader) (i j : ℕ) → i < j → initial_sp L i + 8 ≤ stack_start L j
entries_apart L i j h = omega arith

-- With a table at a multiple of 16, and for two entries i and j of it: the stack pointer that entry
-- i starts with is the end of its stack; the bytes from the start of the stack to the end of
-- `ret_to_sched` are not those of entry j; and when the coroutine has returned and any number of
-- words up to the size of the stack has been pushed, `ret_to_scheduler` makes the stack pointer a
-- multiple of 16.
pub stack_lem :
    (L : Loader) (i j m : ℕ)
    → L.scav_base % 16 ≡ 0
    → i ≢ j
    → 8 * m ≤ crt_stack_sz
    → (stack_start L i + crt_stack_sz ≡ initial_sp L i)
      × ((initial_sp L i + 8 ≤ stack_start L j) ⊎ (initial_sp L j + 8 ≤ stack_start L i))
      × (adjust_sp (initial_sp L i + 8 - 8 * m) % 16 ≡ 0)
unfolding adjust_sp
stack_lem L i j m aligned off room = (
  omega arith,
  elim (Bool-cases (ltb i j)) [
    | inl before ↦ inl (entries_apart L i j (ground arith))
    | inr behind ↦ inr (entries_apart L j i (ground arith))
  ],
  ground arith,
)
