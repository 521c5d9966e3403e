-- ===== src/Tests/Runtime.antt =====
-- The theorems about the scheduler, the cleanup, the allocation and the packing, at the process of
-- Fixture.
use msh.Prelude.{ℕ, ◌+◌, ◌*◌, ◌≤◌, ◌≡◌, refl, true, false, is_some, some, ok, ◌>>=◌, arith}
use msh.Memory.{max_crt_per_thread, sizeof_yield_ctx, World, crt_pos}
use msh.IdxList.{find_unfinished_crt}
use msh.IdxList.Ends.{IsPacked}
use msh.Hosting.{idx_at}
use msh.Hosting.Gain.{Gain}
use msh.Pack.{swap_crts, pack_crts}
use msh.Pack.Hosted.{Moved, swap_crts_lem}
use msh.Pack.Loop.{pack_crts_lem}
use msh.Pack.Packing.{Packing}
use msh.Realloc.{realloc_one, realloc_scav}
use msh.Realloc.Round.{TurnOf, realloc_one_cases}
use msh.Realloc.Loop.{realloc_scav_lem}
use msh.Allocate.{allocate_demanded, call_init_for_new_scav, allocate_scav}
use msh.Allocate.Inits.{InitsOnly, call_init_lem}
use msh.Allocate.Whole.{Demanded, allocate_demanded_lem, Allocated, allocate_scav_lem}
use msh.Schedule.{switch_cleanup, sched_next_crt}
use msh.Schedule.Return.{Resumed, sched_next_crt_lem}
use msh.Schedule.Draining.{primary_over, sched_next_crt_position}
use msh.Cleanup.{returned, msh_cleanup, run_control}
use msh.Cleanup.Drain.{cleanup_fuel, msh_cleanup_lem}
use msh.Cleanup.Done.{Drained}
use msh.Tests.Fixture.{
  loader, world, world-IsHosting, world-IsLinked, world-DonorsPacked, world-IsReady,
  world-SymbolsSet,
}

msh_cleanup_lem_example :
    (w' : World) × ((msh_cleanup loader 0 false world >>= run_control loader 0 cleanup_fuel)
      ≡ ok (returned w'))
    × Drained 0 world w'
msh_cleanup_lem_example =
    msh_cleanup_lem loader 0 world world-IsHosting world-IsLinked world-SymbolsSet

sched_next_crt_lem_example :
    Resumed loader 0 3 1 world world-IsReady
      (omega arith)
      (omega arith)
      refl
      (sched_next_crt loader 0 (3 * sizeof_yield_ctx) world)
sched_next_crt_lem_example =
    sched_next_crt_lem loader 0 3 1 world world-IsReady (omega arith) (omega arith) refl refl

allocate_scav_lem_example : Allocated loader 0 world (allocate_scav loader 0 world)
allocate_scav_lem_example =
    allocate_scav_lem loader 0 world world-IsHosting world-IsLinked world-DonorsPacked refl

allocate_demanded_lem_example : Demanded loader 0 3 world (allocate_demanded loader 0 3 world)
allocate_demanded_lem_example =
    allocate_demanded_lem loader 0 3 world world-IsHosting world-IsLinked world-DonorsPacked refl
      (omega arith)

pack_crts_lem_example :
    (w' : World) × (pack_crts loader 0 world ≡ ok w')
    × Packing loader 0 world w'
    × IsPacked (w'.prim 0).idx_list
pack_crts_lem_example = pack_crts_lem loader 0 world world-IsHosting world-IsLinked refl

swap_crts_lem_example :
    (w' : World) × (swap_crts loader 0 2 3 world ≡ ok w')
    × Moved 0 2 3 1 world w'
    × ((g x : ℕ)
        → (world.scav 1).lib_handle ≡ some g
        → loader.dlsym g crt_pos ≡ some x
        → w'.ints x ≡ 2)
swap_crts_lem_example =
    swap_crts_lem loader 0 2 3 1 world (omega arith) (omega arith) (omega arith) world-IsHosting
      world-IsLinked refl refl

realloc_scav_lem_example :
    (k : ℕ) × (w' : World) × (realloc_scav loader 1 0 2 0 world ≡ ok (0 + k, w'))
    × (k ≤ 2)
    × Gain loader 0 k world w'
realloc_scav_lem_example =
    realloc_scav_lem loader 1 0 2 0 world (λ e. absurd (omega arith)) world-IsHosting world-IsLinked
      (world-DonorsPacked 1 refl)

realloc_one_cases_example : TurnOf loader 1 0 world (realloc_one loader 1 0 world)
realloc_one_cases_example =
    realloc_one_cases loader 1 0 world (λ e. absurd (omega arith)) world-IsHosting world-IsLinked
      (world-DonorsPacked 1 refl)

call_init_lem_example :
    InitsOnly world (call_init_for_new_scav loader 0 world)
    × ((p i : ℕ)
        → 1 ≤ p
        → p ≤ max_crt_per_thread
        → idx_at world 0 p ≡ some i
        → is_some (world.scav i).init ≡ true
        → ((call_init_for_new_scav loader 0 world).scav i).inited ≡ true)
call_init_lem_example = call_init_lem loader 0 world

sched_next_crt_position_example :
    sched_next_crt loader 0 3 world
    ≡ switch_cleanup 0 (find_unfinished_crt (world.prim 0).idx_list) (primary_over 0 world)
sched_next_crt_position_example = sched_next_crt_position loader 0 3 world (omega arith) refl
