-- ===== src/Tests/Fixture.antt =====
-- A process with two threads. The primary of thread 0 runs and hosts scavenger 0 at position 1 and
-- scavenger 1 at position 3, with a hole between them. Thread 1 is blocked, and hosts scavengers 2
-- and 3. Entries 4 to 7 of the pool are loaded and free, and nothing is loaded behind them.
use mathlib.Core.Path.{subst}
use msh.Prelude.{
  ℕ, ◌+◌, ◌*◌, ◌≤◌, ◌≡◌, refl, Bool, false, ◌==◌, ltb, if◌then◌else◌, update, none, some, [], pos,
  minus_one, arith,
}
use msh.Memory.{
  max_crt_per_thread, YieldCtx, CoroutineCtx, PrimaryCtx, World, yield_ptr, put_prim, put_scav,
  Loader, Symbol, entry, init, argc, argv, crt_pos, loop_counter_loc,
}
use msh.Hosting.{idx_at, IsHosting}
use msh.Hosting.Steps.{Attach, Attach-IsHosting}
use msh.Symbols.Frame.{IsLinked}
use msh.IdxList.Ends.{IsPacked}
use msh.Allocate.Donors.{DonorsPacked}
use msh.Schedule.Running.{IsReady}
use msh.Symbols.Offsets.{SymbolsSet}

unfoldable pub symbol_offset : Symbol → ℕ
symbol_offset entry = 0
symbol_offset init = 1
symbol_offset argc = 2
symbol_offset argv = 3
symbol_offset crt_pos = 4
symbol_offset loop_counter_loc = 5

-- The symbols of handle `h` stand at the addresses from `8 * h`.
abbrev pub loader : Loader
loader = record {
  wordexp = λ s. [];
  dlopen = λ s. none;
  dlsym = λ h s. some (8 * h + symbol_offset s);
  scav_base = 4194304;
  run_init = λ f yc. record yc { sp = f; ip = f };
}

abbrev pub empty_yc : YieldCtx
empty_yc = record { sp = 0; ip = 0; special_next = pos 0; normal_next = minus_one }

abbrev pub primary_yc : YieldCtx
primary_yc = record { sp = 900; ip = 901; special_next = pos 0; normal_next = pos 20 }

abbrev pub free_prim : Bool → PrimaryCtx
free_prim blocked = record {
  ycs = update (λ p. empty_yc) 0 primary_yc;
  loop_counter = λ p. λ k. 0;
  regs = λ p. λ k. p;
  idx_list = λ p. none;
  scav_num = 0;
  reallocatable = blocked;
  reallocated = false;
}

abbrev pub free_scav : ℕ → CoroutineCtx
free_scav i = record {
  lib_handle = if ltb i 8 then some (i + 1) else none;
  entry = 1000 + i;
  stack = λ k. 0;
  argc = 0;
  argv = [];
  yc = none;
  finished = false;
  init = some (2000 + i);
  inited = false;
}

abbrev pub free_world : World
free_world = record {
  prim = λ t. free_prim (t == 1);
  scav = free_scav;
  ints = update (update (λ a. 0) 12 20) 20 60;
  argvs = λ a. [];
  cur_crt_pos = λ t. pos 0;
  finished_scav_cnt = 0;
  max_scav_per_thread = pos 4;
  strays = 0;
  closed = [];
}

-- The world in which scavenger `i` is hosted at position `p` of thread `t`.
abbrev pub host_at : ℕ → ℕ → ℕ → World → World
host_at t p i w =
    put_scav i (record (w.scav i) { yc = some (yield_ptr t p) })
      (put_prim t
        (record (w.prim t) {
          ycs =
              update (w.prim t).ycs p
                (record empty_yc { sp = 100 * p; ip = 1000 + i; normal_next = pos 0 });
          idx_list = update (w.prim t).idx_list p (some i);
        })
        w)

pub free_world-IsHosting : IsHosting free_world
free_world-IsHosting = record {
  host = λ t p i lo hi e. absurd (ground arith);
  back = λ i t p e. absurd (ground arith);
  reserved = λ t. refl;
  live = λ t p lo hi. ground arith;
  unfinished = λ t p i lo hi e. refl;
  loaded = λ t p i lo hi e. absurd (ground arith);
}

host_at-Attach : (t p i : ℕ) (w : World) → Attach w (host_at t p i w) t p i
host_at-Attach t p i w = record {
  idx = λ s q. ground arith;
  runs = λ s q lo. ground arith;
  slot = λ j. ground arith;
  finished = λ j. ground arith;
  handle = λ j. ground arith;
}

pub host_at-IsHosting :
    (t p i : ℕ) (w : World)
    → IsHosting w
    → 1 ≤ p
    → p ≤ max_crt_per_thread
    → idx_at w t p ≡ none
    → (w.scav i).yc ≡ none
    → (w.scav i).finished ≡ false
    → (g : ℕ) × ((w.scav i).lib_handle ≡ some g)
    → IsHosting (host_at t p i w)
host_at-IsHosting t p i w h lo hi free unhosted open_ loaded =
    Attach-IsHosting h lo hi (host_at-Attach t p i w) free unhosted open_ loaded

abbrev pub world : World
world = host_at 1 2 3 (host_at 1 1 2 (host_at 0 3 1 (host_at 0 1 0 free_world)))

pub world-IsHosting : IsHosting world
world-IsHosting =
    host_at-IsHosting 1 2 3 _
      (host_at-IsHosting 1 1 2 _
        (host_at-IsHosting 0 3 1 _
          (host_at-IsHosting 0 1 0 free_world free_world-IsHosting (omega arith) (omega arith) refl
            refl refl (1, refl))
          (omega arith) (omega arith) refl refl refl (2, refl))
        (omega arith) (omega arith) refl refl refl (3, refl))
      (omega arith) (omega arith) refl refl refl (4, refl)

pub world-IsLinked : IsLinked loader world
unfolding symbol_offset
world-IsLinked = record { has = λ i h e. ((8 * h + 2, refl), (8 * h + 3, refl), (8 * h + 4, refl)) }

donor-IsPacked : IsPacked (world.prim 1).idx_list
donor-IsPacked p q lo lt hi e = ground arith

pub world-DonorsPacked : DonorsPacked world
world-DonorsPacked s up = subst (λ k. IsPacked (world.prim k).idx_list) blocked donor-IsPacked
  where
    blocked : 1 ≡ s
    blocked = ground arith

pub world-IsReady : IsReady loader 0 world
world-IsReady = record {
  hosting = world-IsHosting;
  linked = world-IsLinked;
  donors = world-DonorsPacked;
  own = refl;
  running = refl;
}

pub world-SymbolsSet : SymbolsSet loader 0 world
unfolding symbol_offset
world-SymbolsSet p i g x lo hi e loaded has = ground arith
