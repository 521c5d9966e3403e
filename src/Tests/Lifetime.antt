-- ===== src/Tests/Lifetime.antt =====
-- Threads from their start to their end, in the processes of Tests.Startup and Tests.Process.
use msh.Prelude.{ℕ, ◌+◌, ◌≡◌, refl, false, some, List, pos, ok, arith}
use msh.Memory.{World}
use msh.Symbols.Offsets.{IsApart}
use msh.Allocate.Offsets.{IsSettled}
use msh.Cleanup.Drain.{cleanup_fuel}
use msh.Cleanup.Done.{Drained}
use msh.Init.{cut_line, is_comment, program}
use msh.Init.Commands.{command_at}
use msh.Thread.{alloc_ctx}
use msh.Wrappers.{start_routine}
use msh.Wrappers.First.{AllDistinct}
use msh.Wrappers.Lifetime.{start_routine_whole}
use msh.Tests.Fixture.{symbol_offset}
use msh.Tests.Startup.{opener, name_size, pool_lines}
use msh.Tests.Process.{started, started-IsHosting, started-IsLinked}

pub opener-IsApart : IsApart opener
unfolding symbol_offset
opener-IsApart = record {
  own = λ g h x e e'. ground arith;
  argc = λ g h x e e'. ground arith;
  loop = λ g h x e e'. ground arith;
}

command_size :
    (k : ℕ) (line : List ℕ)
    → command_at pool_lines k ≡ some line
    → name_size (cut_line line) ≡ k + 1
unfolding command_at is_comment cut_line name_size
command_size k line e = ground arith

pub pool-AllDistinct : AllDistinct opener pool_lines
unfolding program
pool-AllDistinct k l line line' h at_ at' e e' =
    ground (arith, command_size k line at_, command_size l line' at')

started-IsSettled : IsSettled opener 0 started
started-IsSettled = record {
  hosting = started-IsHosting;
  linked = started-IsLinked;
  separate = λ i j h e e'. ground arith;
  symbols = λ p i g x lo hi at_ loaded here. absurd (ground arith);
}

start_routine_whole_example :
    (w1 w' : World) × (alloc_ctx opener 0 started ≡ ok (pos 0, w1))
    × (start_routine opener false cleanup_fuel 0 (λ v. ok (7, v)) started ≡ ok (some (7, w')))
    × Drained 0 w1 w'
start_routine_whole_example =
    start_routine_whole opener 0 (λ v. 7) started opener-IsApart (omega arith) started-IsSettled
      (λ s. refl)
