-- ===== src/Tests/Startup.antt =====
-- The theorems about the start of the process and of a thread, about the blocking calls and the
-- spin lock, at concrete arguments. The pool file has a comment and the commands "a" and "bb".
use msh.Prelude.{
  ℕ, ◌+◌, ◌*◌, ◌≡◌, refl, false, none, some, List, [], ◌∷◌, ℤ, pos, minus_one, ok, fault, arith,
}
use msh.Memory.{World, Loader}
use msh.Init.{strlen, cut_line, program, is_comment, msh_init, load_lines}
use msh.Init.Tables.{IsUnused}
use msh.Init.Commands.{count_commands, IsLoadable, AllLoadable}
use msh.Init.Pool.{load_lines_overflow}
use msh.Init.Start.{Started, msh_init_lem}
use msh.Thread.{alloc_ctx, enter_blockable_call, exit_blockable_call}
use msh.Thread.Start.{Entered, alloc_ctx_lem}
use msh.Thread.Blocking.{IsBlocked, Reentered, exit_blockable_call_lem}
use msh.Wrappers.{Environment, cap_of, blockable, create}
use msh.Wrappers.Blockable.{Wrapped, blockable_lem}
use msh.Wrappers.Startup.{IsLinking, FirstCreated, create_lem}
use msh.Spinlock.{Machine, start, call_lock, swap_lock, Reachable, begin, next, calls, swaps}
use msh.Spinlock.Exclusion.{mutual_exclusion}
use msh.IdxList.Ends.{IsPacked}
use msh.Schedule.Running.{IsReady}
use msh.Tests.Fixture.{
  host_at, host_at-IsHosting, free_world-IsHosting, symbol_offset, loader, free_world, world,
  world-IsHosting, world-IsLinked, world-DonorsPacked,
}

-- The words of a line are the line, and the object of a name of length n has the handle n.
unfoldable pub name_size : List ℕ → ℕ
name_size [] = 0
name_size (c ∷ cs) = 1 + name_size cs

abbrev pub opener : Loader
opener = record loader {
  wordexp = λ s. s ∷ [];
  dlopen = λ name. elim name [ none ↦ some 0 | some s ↦ some (name_size s) ];
}

abbrev pub pool_lines : List (List ℕ)
pool_lines = (35 ∷ 97 ∷ 10 ∷ []) ∷ (97 ∷ 10 ∷ []) ∷ (98 ∷ 98 ∷ 10 ∷ []) ∷ []

abbrev pub environment : Environment
environment = record {
  max_scav = some (pos 2);
  skip_first = false;
  pool_path = some (112 ∷ []);
  file = λ path. some pool_lines;
}

-- A process that has not run `msh_init`.
abbrev pub new_world : World
new_world = record free_world {
  prim = λ t. record (free_world.prim t) {
    ycs = λ p. record ((free_world.prim t).ycs p) { normal_next = minus_one };
  };
}

pub new_world-IsUnused : IsUnused new_world
new_world-IsUnused = record {
  unhosted = λ i. refl;
  no_entry = λ i h. ground arith;
  no_list = λ t p h hi. refl;
  no_link = λ t p h hi. refl;
  no_flag = λ t h. ground arith;
}

opener-IsLoadable : (line : List ℕ) → IsLoadable opener line
unfolding program symbol_offset
opener-IsLoadable line = record {
  handle = name_size (cut_line line);
  opens = refl;
  start = 8 * name_size (cut_line line) + 0;
  has_entry = refl;
}

pub pool-AllLoadable : AllLoadable opener pool_lines
pool-AllLoadable k line e = opener-IsLoadable line

pub opener-IsLinking : IsLinking opener
unfolding symbol_offset
opener-IsLinking = record {
  has = λ name h e. ((8 * h + 2, refl), (8 * h + 3, refl), (8 * h + 4, refl));
}

pub pool_size : count_commands pool_lines ≡ 2
unfolding count_commands is_comment
pool_size = refl

create_lem_example :
    FirstCreated opener (cap_of environment) (create opener environment 0 new_world)
unfolding strlen
create_lem_example =
    create_lem opener environment (112 ∷ []) pool_lines new_world new_world-IsUnused
      opener-IsLinking refl refl (omega arith) refl pool-AllLoadable (omega (arith, pool_size))

msh_init_lem_example :
    (w' : World) × (msh_init opener (pos 2) (some (112 ∷ [])) environment.file new_world
      ≡ ok (pos 0, w'))
    × Started opener pool_lines (pos 2) w'
unfolding strlen
msh_init_lem_example =
    msh_init_lem opener (pos 2) (112 ∷ []) environment.file pool_lines new_world new_world-IsUnused
      (omega arith) refl pool-AllLoadable (omega (arith, pool_size))

load_lines_overflow_example : load_lines opener pool_lines 511 new_world ≡ fault
load_lines_overflow_example =
    load_lines_overflow opener pool_lines 511 new_world pool-AllLoadable (omega arith)
      (omega (arith, pool_size))

alloc_ctx_lem_example : Entered loader 0 world (alloc_ctx loader 0 world)
alloc_ctx_lem_example =
    alloc_ctx_lem loader 0 world (omega arith) world-IsHosting world-IsLinked world-DonorsPacked
      refl

-- Thread 1 of the process is blocked.
world-IsBlocked : IsBlocked loader 1 world
world-IsBlocked = record {
  hosting = world-IsHosting;
  linked = world-IsLinked;
  donors = world-DonorsPacked;
  exposed = refl;
  running = refl;
}

exit_blockable_call_lem_example : Reentered loader 1 world (exit_blockable_call loader 1 world)
exit_blockable_call_lem_example = exit_blockable_call_lem loader 1 world world-IsBlocked

-- Scavenger 0 at position 1 of thread 0, and no other.
abbrev small_world : World
small_world = host_at 0 1 0 free_world

small_world-IsPacked : (s : ℕ) → IsPacked (small_world.prim s).idx_list
small_world-IsPacked s p q lo lt hi e = ground arith

small_world-IsReady : IsReady loader 0 small_world
unfolding symbol_offset
small_world-IsReady = record {
  hosting =
      host_at-IsHosting 0 1 0 free_world free_world-IsHosting (omega arith) (omega arith) refl refl
        refl (1, refl);
  linked = record { has = λ i h e. ((8 * h + 2, refl), (8 * h + 3, refl), (8 * h + 4, refl)) };
  donors = λ s up. small_world-IsPacked s;
  own = refl;
  running = refl;
}

-- A function that returns 7 and during which nothing happens.
abbrev quiet : World → ℤ × World
quiet w = (pos 7, w)

blockable_lem_example :
    Wrapped loader 0
      ((quiet (enter_blockable_call 0 small_world)).0)
      (blockable loader 0 quiet small_world)
blockable_lem_example =
    blockable_lem loader 0 quiet small_world small_world-IsReady (small_world-IsPacked 0) (λ v b. b)

-- Thread 2 has locked.
abbrev called : Machine
called = call_lock 2 start

abbrev locked : Machine
locked = swap_lock 2 called

called-Reachable : Reachable called
called-Reachable = next start called begin (calls 2 refl)

locked-Reachable : Reachable locked
locked-Reachable = next called locked called-Reachable (swaps 2 refl)

mutual_exclusion_example : ◌≡◌ {A = ℕ} 2 2
unfolding swap_lock
mutual_exclusion_example = mutual_exclusion locked 2 2 locked-Reachable refl refl
