-- ===== src/Wrappers.antt =====
-- libmsh/pthread.c: the functions that are put in front of pthread's. What pthread itself does, and
-- what other threads do meanwhile, is the argument `original`.
pub mod Blockable
pub mod Startup
pub mod Ending
pub mod First
pub mod Lifetime
use msh.Prelude.{
  ℕ, ◌+◌, ◌==◌, if◌then◌else◌, Bool, true, false, Option, none, some, List, ℤ, pos, negsuc, is_zero,
  minus_one, Outcome, ok, ◌>>=◌,
}
use msh.Memory.{World, Loader}
use msh.Init.{msh_init}
use msh.Cleanup.{Control, returned, running, msh_cleanup, run_control}
use msh.Thread.{alloc_ctx, enter_blockable_call, exit_blockable_call}

-- `pthread_mutex_lock`, `pthread_cond_wait`, `pthread_cond_timedwait` and `pthread_barrier_wait` on
-- thread `t`: what is returned, and the world when the loop of `msh_exit_blockable_call` has gone
-- round once, `none` if it goes on.
pub blockable : Loader → ℕ → (World → ℤ × World) → World → Outcome (ℤ × Option World)
blockable L t original w =
    let (ret, w1) = original (enter_blockable_call t w) in
    exit_blockable_call L t w1 >>= λ w2. ok (ret, w2)

-- The environment: MAX_SCAV_PER_THREAD as `atoi` reads it, whether SKIP_FIRST_THREAD is set,
-- MSH_SCAV_POOL_PATH, and the lines of a file.
pub record Environment : Type 0 where
  pub max_scav : Option ℤ
  pub skip_first : Bool
  pub pool_path : Option (List ℕ)
  pub file : List ℕ → Option (List (List ℕ))

abbrev pub cap_of : Environment → ℤ
cap_of env = elim env.max_scav [ none ↦ pos 1 | some m ↦ m ]

module _ (L : Loader) (env : Environment) where
  -- The allocation for the first thread, in `pthread_create`: `none` for a return of -1, and the
  -- new `thread_cnt`.
  pub first_thread : ℕ → World → Outcome (Bool × ℕ × World)
  first_thread count w =
      if env.skip_first
      then ok (true, count, w)
      else alloc_ctx L count w >>= λ (err, w1). ok (is_zero err, count + 1, w1)

  -- The start of `pthread_create` with this `thread_cnt`: whether it goes on.
  pub prepare : ℕ → World → Outcome (Bool × ℕ × World)
  unfolding first_thread
  prepare count w =
      if count == 0
      then (msh_init L (cap_of env) env.pool_path env.file w >>= λ (err, w1).
          if is_zero err then first_thread count w1 else ok (false, count, w1))
      else ok (true, count, w)

  -- `pthread_create` up to the call of the original: the thread number for the new thread, `none`
  -- for a return of -1, with the new `thread_cnt`.
  pub create : ℕ → World → Outcome (Option ℕ × ℕ × World)
  unfolding prepare
  create count w = prepare count w >>= λ (goes_on, count1, w1).
      ok (if goes_on then (some count1, count1 + 1, w1) else (none, count1, w1))

-- `struct msh_start_routine_arg`: what the thread was created to run with its pointer argument, and
-- its number.
pub record StartArg : Type 0 where
  pub start_routine : ℕ → World → Outcome (ℕ × World)
  pub arg : ℕ
  pub thread_id : ℕ

-- `pthread_create`, where `original` is given what `msh_start_routine` is to run with: what is
-- returned, the `pthread_t` that is stored if the original was called, and the new `thread_cnt`.
pub create_thread :
    Loader
    → Environment
    → (StartArg → World → (ℤ × ℕ) × World)
    → (ℕ → World → Outcome (ℕ × World))
    → (arg count : ℕ) → World
    → Outcome (ℤ × Option ℕ × ℕ × World)
unfolding create
create_thread L env original routine arg count w = create L env count w >>= λ (tid, count1, w1).
    ok (elim tid [
      | none ↦ (minus_one, none, count1, w1)
      | some id ↦
          let msh_arg : StartArg = record { start_routine = routine; arg = arg; thread_id = id } in
          let ((ret, thread), w2) = original msh_arg w1 in (ret, some thread, count1, w2)
    ])

-- `pthread_cond_signal` and `pthread_mutex_unlock`, which only pass the call on.
pub pass_on : (World → ℤ × World) → World → ℤ × World
pass_on original w = original w

-- The last lines of `pthread_join`.
abbrev passed_on : (World → ℤ × World) → Bool → World → ℤ × Bool × World
passed_on original first_join w = let (ret, w1) = original w in (ret, first_join, w1)

-- The world in which `msh_cleanup` has returned, which it does with 0; `none` if a scavenger runs
-- still.
pub returned_world : Control → Option World
returned_world (returned w) = some w
returned_world (running s w) = none

module _ (L : Loader) (skip_cleanup : Bool) (fuel : ℕ) where
  -- A call of `msh_cleanup` on thread `t`, with what the scavengers do until it returns: `none` if
  -- the fuel for their switches runs out.
  pub clean : ℕ → World → Outcome (Option World)
  unfolding returned_world
  clean t w = msh_cleanup L t skip_cleanup w >>= run_control L t fuel >>= λ c. ok (returned_world c)

  -- `msh_start_routine` on thread number `tid`, where `routine` is what the thread was created to
  -- run: the pointer that is returned, 0 for NULL.
  pub start_routine : ℕ → (World → Outcome (ℕ × World)) → World → Outcome (Option (ℕ × World))
  unfolding clean
  start_routine tid routine w = alloc_ctx L tid w >>= λ (err, w1).
      if is_zero err
      then (routine w1 >>= λ (ret, w2).
          clean tid w2 >>= λ o. ok (elim o [ none ↦ none | some w3 ↦ some (ret, w3) ]))
      else ok (some (0, w1))

  -- The same on its argument.
  unfoldable pub start_thread : StartArg → World → Outcome (Option (ℕ × World))
  unfolding start_routine
  start_thread a = start_routine a.thread_id (a.start_routine a.arg)

  -- `pthread_join` on thread `t`, with `first_join`: what is returned, and the new `first_join`.
  pub join :
      Environment → ℕ → (World → ℤ × World) → Bool → World → Outcome (Option (ℤ × Bool × World))
  unfolding clean
  join env t original first_join w =
      if env.skip_first
      then ok (some (passed_on original first_join w))
      else if first_join
      then (clean t w >>= λ o.
          ok (elim o [ none ↦ none | some w1 ↦ some (passed_on original false w1) ]))
      else ok (some (passed_on original false w))
