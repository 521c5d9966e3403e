-- ===== src/Memory/Layout.antt =====
-- The constants of libmsh/msh.h, and the sizes and offsets that its struct declarations fix.
use msh.Prelude.{ℕ, ◌+◌, ◌*◌, ◌/◌, ◌^◌, ℤ, Bool, Option, List}

abbrev pub crt_stack_sz : ℕ
crt_stack_sz = 2 ^ 20

abbrev pub max_thread_num : ℕ
max_thread_num = 128

-- MAX_ACTIVE_CRT_NUM_PER_APPLICATION
abbrev pub max_active_crt_num : ℕ
max_active_crt_num = 512

abbrev pub max_crt_per_thread : ℕ
max_crt_per_thread = 128

abbrev pub num_of_lines_for_loop_counter : ℕ
num_of_lines_for_loop_counter = 4

-- sizeof(struct yield_ctx): two `uint64_t` and two `short`, packed.
abbrev pub sizeof_yield_ctx : ℕ
sizeof_yield_ctx = 20

-- sizeof(struct coroutine_ctx), and the offsets of `stack` and `ret_to_sched` in it.
abbrev pub sizeof_coroutine_ctx : ℕ
sizeof_coroutine_ctx = 1048672

abbrev pub offset_stack : ℕ
offset_stack = 24

abbrev pub offset_ret_to_sched : ℕ
offset_ret_to_sched = 24 + crt_stack_sz

-- offsetof(struct primary_thread_ctx, loop_counter): the array of yield contexts is in front.
abbrev pub offset_loop_counter : ℕ
offset_loop_counter = 129 * sizeof_yield_ctx

-- offsetof(struct primary_thread_ctx, regs), which holds pointers and so is at a multiple of 8
-- behind the loop counters.
abbrev pub offset_regs : ℕ
offset_regs = (offset_loop_counter + 129 * (num_of_lines_for_loop_counter * 64) + 7) / 8 * 8

-- `struct yield_ctx`
pub record YieldCtx : Type 0 where
  pub sp : ℕ
  pub ip : ℕ
  pub special_next : ℤ
  pub normal_next : ℤ

-- A block of memory that the runtime only clears and copies: a function of the offset.
abbrev pub Block : Type 0
Block = ℕ → ℕ

-- A pointer to `PRIM_TABLE[tid].ycs[slot]`.
pub record YieldPtr : Type 0 where
  pub tid : ℕ
  pub slot : ℕ

-- `struct coroutine_ctx`. `lib_handle`, `yc` and `init` may be null; a program address is a number.
pub record CoroutineCtx : Type 0 where
  pub lib_handle : Option ℕ
  pub entry : ℕ
  pub stack : Block
  pub argc : ℕ
  pub argv : List (List ℕ)
  pub yc : Option YieldPtr
  pub finished : Bool
  pub init : Option ℕ
  pub inited : Bool

-- `struct primary_thread_ctx`
pub record PrimaryCtx : Type 0 where
  pub ycs : ℕ → YieldCtx
  pub loop_counter : ℕ → Block
  pub regs : ℕ → Block
  pub idx_list : ℕ → Option ℕ
  pub scav_num : ℕ
  pub reallocatable : Bool
  pub reallocated : Bool
