-- ===== src/Tests/Lists.antt =====
-- The theorems about the lists and links of one thread, at concrete contexts, and runs of the
-- functions that they are about.
use msh.Prelude.{
  ℕ, ◌+◌, ◌-◌, ◌*◌, ◌%◌, ◌<◌, ◌≤◌, ◌≡◌, ◌⊎◌, refl, false, update, last_pos, none, some, arith,
}
use msh.Memory.{crt_stack_sz, max_crt_per_thread, PrimaryCtx}
use msh.IdxList.{IdxList, push_back, pop_back}
use msh.IdxList.Push.{push-pop_packed}
use msh.IdxList.Ends.{Popped, IsPacked}
use msh.NextMap.{set_special_next}
use msh.NextMap.Ring.{walk, Hosts, special_next_ring}
use msh.Allocate.{initial_sp}
use msh.Stack.{stack_start, adjust_sp, stack_lem}
use msh.Symbols.{set_loop_counter}
use msh.Symbols.Counters.{Counting, set_loop_counter_lem}
use msh.Tests.Fixture.{free_prim, loader, symbol_offset, world}

-- Items 5 and 6 at the first two positions.
abbrev two_items : IdxList
two_items = update (update (λ p. none) 1 (some 5)) 2 (some 6)

abbrev two_ctx : PrimaryCtx
two_ctx = record (free_prim false) { idx_list = two_items }

two_items-IsPacked : IsPacked two_items
two_items-IsPacked p q lo lt hi e = ground arith

two_items-Popped : Popped two_items (max_crt_per_thread + 1) 2 6
unfolding pop_back last_pos
two_items-Popped = record {
  lower = omega arith;
  upper = omega arith;
  was = refl;
  last = λ q lo hi. ground arith;
  result = refl;
}

two_ctx-Hosts : Hosts two_ctx 2
two_ctx-Hosts p lo hi = ground arith

push-pop_packed_example :
    push_back (pop_back two_items (max_crt_per_thread + 1)).0 (max_crt_per_thread + 1) 6
    ≡ (two_items, some 2)
push-pop_packed_example = push-pop_packed two_items 2 6 two_items-IsPacked two_items-Popped

special_next_ring_example :
    ((n : ℕ) → n < 2 → walk (set_special_next two_ctx) n 1 ≡ n + 1)
    × (walk (set_special_next two_ctx) 2 1 ≡ 0)
special_next_ring_example = special_next_ring two_ctx 2 two_ctx-Hosts (omega arith) (omega arith)

stack_lem_example :
    (stack_start loader 3 + crt_stack_sz ≡ initial_sp loader 3)
    × ((initial_sp loader 3 + 8 ≤ stack_start loader 7)
        ⊎ (initial_sp loader 7 + 8 ≤ stack_start loader 3))
    × (adjust_sp (initial_sp loader 3 + 8 - 8 * 5) % 16 ≡ 0)
stack_lem_example = stack_lem loader 3 7 5 refl (omega arith) (omega arith)

set_loop_counter_lem_example :
    Counting loader 3 0 128 29 world (set_loop_counter loader 3 0 128 world)
unfolding symbol_offset
set_loop_counter_lem_example = set_loop_counter_lem loader 3 0 128 29 world refl (omega arith)
