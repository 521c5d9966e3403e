-- ===== src/Tests/Ending.antt =====
-- Threads that end, in the process of Tests.Process and in that of Tests.Fixture.
use msh.Prelude.{◌≡◌, refl, true, false, none, some, pos, ok}
use msh.Memory.{World}
use msh.Cleanup.Drain.{cleanup_fuel}
use msh.Cleanup.Done.{Drained}
use msh.Wrappers.{Environment, start_routine, join}
use msh.Wrappers.Ending.{IsCleanable, start_routine_returns, join_lem}
use msh.Tests.Fixture.{loader, world, world-IsHosting, world-IsLinked, world-SymbolsSet}
use msh.Tests.Process.{started, first, first_allocates, running-IsConsistent, first-SymbolsSet}
use msh.Tests.Startup.{opener}

first-IsCleanable : IsCleanable opener 0 first
first-IsCleanable = record {
  hosting = running-IsConsistent.hosting;
  linked = running-IsConsistent.linked;
  symbols = first-SymbolsSet;
}

start_routine_returns_example :
    (w' : World) × (start_routine opener false cleanup_fuel 0 (λ w. ok (7, w)) started
      ≡ ok (some (7, w')))
    × Drained 0 first w'
start_routine_returns_example =
    start_routine_returns opener 0 7 (λ w. ok (7, w)) started first first first_allocates refl
      first-IsCleanable

abbrev environment : Environment
environment = record { max_scav = none; skip_first = false; pool_path = none; file = λ path. none }

world-IsCleanable : IsCleanable loader 0 world
world-IsCleanable = record {
  hosting = world-IsHosting;
  linked = world-IsLinked;
  symbols = world-SymbolsSet;
}

join_lem_example :
    ((w' : World) × (join loader false cleanup_fuel environment 0 (λ w. (pos 0, w)) true world
        ≡ ok (some (pos 0, false, w')))
      × Drained 0 world w')
    × ((v : World)
        → join loader false cleanup_fuel environment 0 (λ w. (pos 0, w)) false v
          ≡ ok (some (pos 0, false, v)))
join_lem_example = join_lem loader environment 0 (λ w. (pos 0, w)) world refl world-IsCleanable
