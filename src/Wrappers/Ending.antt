-- ===== src/Wrappers/Ending.antt =====
-- libmsh/pthread.c: how a thread ends, in `msh_start_routine` and in the first `pthread_join`.
use msh.Prelude.{ℕ, ◌≤◌, ◌≡◌, refl, ap, Bool, true, false, some, ℤ, pos, Outcome, ok, ◌>>=◌}
use msh.Memory.{max_thread_num, World, Loader}
use msh.Hosting.{IsHosting}
use msh.Symbols.Frame.{IsLinked}
use msh.Cleanup.{Control}
use msh.Symbols.Offsets.{SymbolsSet}
use msh.Cleanup.Drain.{cleanup_fuel, msh_cleanup_lem}
use msh.Cleanup.Done.{Drained}
use msh.Thread.{at_primary, alloc_ctx}
use msh.Thread.Start.{alloc_ctx_refused}
use msh.Wrappers.{Environment, returned_world, clean, start_routine, join}

-- A world in which `msh_cleanup` of thread `t` has work that it can do.
pub record IsCleanable (L : Loader) (t : ℕ) (w : World) : Type 0 where
  pub hosting : IsHosting w
  pub linked : IsLinked L w
  pub symbols : SymbolsSet L t w

pub clean_lem :
    (L : Loader) (t : ℕ) (w : World)
    → IsCleanable L t w
    → (w' : World) × (clean L false cleanup_fuel t w ≡ ok (some w')) × Drained t w w'
unfolding clean returned_world
clean_lem L t w c =
    let (w', ran, drained) = msh_cleanup_lem L t w c.hosting c.linked c.symbols in
    (w', ap (λ (o : Outcome Control). o >>= λ c. ok (returned_world c)) ran, drained)

-- A new thread for which `msh_alloc_ctx` succeeds, and whose routine then returns `ret` in
-- consistent tables, with every object linked and the offsets of `set_scav_symbol` in the `crt_pos`
-- of the thread's scavengers, and with SKIP_CLEANUP not set: `msh_start_routine` comes back with the
-- same `ret`. By then each scavenger that the thread hosted when its
-- routine returned is finished, and it hosts none.
pub start_routine_returns :
    (L : Loader) (t ret : ℕ) (routine : World → Outcome (ℕ × World)) (w w1 w2 : World)
    → alloc_ctx L t w ≡ ok (pos 0, w1)
    → routine w1 ≡ ok (ret, w2)
    → IsCleanable L t w2
    → (w' : World) × (start_routine L false cleanup_fuel t routine w ≡ ok (some (ret, w')))
      × Drained t w2 w'
unfolding start_routine
start_routine_returns L t ret routine w w1 w2 e e' c =
    let (w', ran, drained) = clean_lem L t w2 c in (w', rw (e, e', ran) refl, drained)

-- A thread number of 128 or more: `msh_start_routine` returns NULL and the routine is never called.
pub start_routine_refused :
    (L : Loader) (skip : Bool) (fuel t : ℕ) (routine : World → Outcome (ℕ × World)) (w : World)
    → max_thread_num ≤ t
    → start_routine L skip fuel t routine w ≡ ok (some (0, at_primary t w))
unfolding start_routine
start_routine_refused L skip fuel t routine w h = rw (alloc_ctx_refused L t w h) refl

-- The first `pthread_join` of a thread whose cleanup ends in `w'`, and each later one.
pub join_first :
    (L : Loader) (env : Environment) (t : ℕ) (original : World → ℤ × World) (w w' : World)
    → env.skip_first ≡ false
    → clean L false cleanup_fuel t w ≡ ok (some w')
    → join L false cleanup_fuel env t original true w
      ≡ ok (some ((original w').0, false, (original w').1))
unfolding join
join_first L env t original w w' skip ran = rw (skip, ran) refl

-- With neither SKIP_FIRST_THREAD nor SKIP_CLEANUP set, the first `pthread_join` finishes the
-- scavengers of the calling thread before it waits, and what is waited for runs in a world where
-- that thread hosts none. Each later one only passes the call on.
pub join_lem :
    (L : Loader) (env : Environment) (t : ℕ) (original : World → ℤ × World) (w : World)
    → env.skip_first ≡ false
    → IsCleanable L t w
    → ((w' : World) × (join L false cleanup_fuel env t original true w
          ≡ ok (some ((original w').0, false, (original w').1)))
        × Drained t w w')
      × ((v : World)
          → join L false cleanup_fuel env t original false v
            ≡ ok (some ((original v).0, false, (original v).1)))
unfolding join
join_lem L env t original w skip c =
    let (w', ran, drained) = clean_lem L t w c in
    ((w', join_first L env t original w w' skip ran, drained), λ v. rw skip refl)
