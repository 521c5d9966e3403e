-- ===== src/Runtime.antt =====
-- All threads of a process over one set of tables: the calls into libmsh/msh.c in any order and any
-- interleaving. A step is one whole call of one thread; a thread calls in the order in which
-- libmsh/pthread.c makes it call: `msh_alloc_ctx` first, then blockable calls and returns of
-- coroutines, and `msh_cleanup` at the end. The value that a coroutine returns is any number.
pub mod Consistent
pub mod Safety
pub mod Isolation
pub mod Links
pub mod Calls
pub mod Progress
pub mod Resume
pub mod Ending
use msh.Prelude.{
  ℕ, ◌≡◌, Bool, true, false, if◌then◌else◌, update, Option, none, some, ℤ, pos, minus_one, Outcome,
  ok,
}
use msh.Memory.{PrimaryCtx, World, Loader}
use msh.NextMap.{has_next}
use msh.Schedule.{Switch, sched_next_crt}
use msh.Cleanup.{Control, world_of, after_setjmp, msh_cleanup}
use msh.Thread.{alloc_ctx, enter_blockable_call, exit_blockable_call}

-- A thread has not called yet, is between its calls, is in a blockable call, or cleans up and ends.
pub data Phase : Type 0 where
  absent working blocked ending : Phase

pub record System : Type 0 where
  pub world : World
  pub phase : ℕ → Phase

abbrev pub go : ℕ → Phase → World → System → System
go t p w S = record { world = w; phase = update S.phase t p }

-- The thread is between its calls as long as its primary is not marked finished.
abbrev pub phase_after : ℕ → World → Phase
phase_after t w = if has_next (w.prim t).ycs 0 then working else ending

pub data Step (L : Loader) (S : System) : System → Type 0 where
  starts :
      (t : ℕ) (w : World)
      → S.phase t ≡ absent
      → alloc_ctx L t S.world ≡ ok (pos 0, w)
      → Step L S (go t working w S)
  refused :
      (t : ℕ) (w : World)
      → S.phase t ≡ absent
      → alloc_ctx L t S.world ≡ ok (minus_one, w)
      → Step L S (go t ending w S)
  enters :
      (t : ℕ) → S.phase t ≡ working → Step L S (go t blocked (enter_blockable_call t S.world) S)
  spins : (t : ℕ) → S.phase t ≡ blocked → exit_blockable_call L t S.world ≡ ok none → Step L S S
  exits :
      (t : ℕ) (w : World)
      → S.phase t ≡ blocked
      → exit_blockable_call L t S.world ≡ ok (some w)
      → Step L S (go t working w S)
  returns :
      (t ret : ℕ) (s : Switch) (w : World)
      → S.phase t ≡ working
      → sched_next_crt L t ret S.world ≡ ok (s, w)
      → Step L S (go t (phase_after t w) w S)
  cleans :
      (t : ℕ) (skip : Bool) (c : Control)
      → S.phase t ≡ working
      → msh_cleanup L t skip S.world ≡ ok c
      → Step L S (go t ending (world_of c) S)
  drains :
      (t ret : ℕ) (s : Switch) (w : World)
      → S.phase t ≡ ending
      → sched_next_crt L t ret S.world ≡ ok (s, w)
      → Step L S (go t ending w S)
  rejoins :
      (t : ℕ) (c : Control)
      → S.phase t ≡ ending
      → after_setjmp L t S.world ≡ ok c
      → Step L S (go t ending (world_of c) S)

-- The threads before any has called.
abbrev pub at_start : World → System
at_start w = record { world = w; phase = λ t. absent }

-- What the threads can come to from a state.
pub data Reach (L : Loader) (S : System) : System → Type 0 where
  here : Reach L S S
  later : {T U : System} → Reach L S T → Step L T U → Reach L S U
