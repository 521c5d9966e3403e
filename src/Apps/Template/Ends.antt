-- ===== src/Apps/Template/Ends.antt =====
-- The whole program.
use msh.Prelude.{ℕ, ◌<◌, ◌≤◌, ◌≡◌, refl, true, false, some, List, [], ◌∷◌, pos, ok, arith}
use msh.Memory.{max_active_crt_num, World, Loader}
use msh.Symbols.Offsets.{IsApart}
use msh.Cleanup.Drain.{cleanup_fuel}
use msh.Cleanup.Done.{Drained}
use msh.Init.{strlen, path_size}
use msh.Init.Tables.{IsUnused}
use msh.Init.Commands.{count_commands, AllLoadable}
use msh.Thread.{alloc_ctx}
use msh.Wrappers.{Environment, StartArg, create, clean, start_thread}
use msh.Wrappers.Startup.{IsLinking, create_thread_step}
use msh.Wrappers.First.{begun, AllDistinct, first_thread_lem, handed_on}
use msh.Wrappers.Ending.{join_first, start_routine_returns}
use msh.Apps.Template.{thread_num, Pthread, do_nothing, create_all, join_all, main}

-- How pthread runs the thread of `a`, as far as the program relies on it: `pthread_create` gives a
-- thread and returns 0 before that has done anything, and a `pthread_join` of it returns 0 when its
-- start routine has come back, with what that has done.
pub record IsPthread (L : Loader) (P : Pthread) (a : StartArg) : Type 0 where
  pub thread : ℕ
  pub create : (w : World) → P.create a w ≡ ((pos 0, thread), w)
  pub join :
      (v v' : World) (ret : ℕ)
      → start_thread L false cleanup_fuel a v ≡ ok (some (ret, v'))
      → P.join thread v ≡ (pos 0, v')

-- What the second thread is started with.
abbrev pub nothing_to_do : StartArg
nothing_to_do = record { start_routine = do_nothing; arg = 0; thread_id = 1 }

module _ (L : Loader) (P : Pthread) (env : Environment) (p : IsPthread L P nothing_to_do) where
  created :
      (w w1 : World)
      → create L env 0 w ≡ ok (some 1, 2, w1)
      → create_all L P env false cleanup_fuel thread_num 0 w ≡ ok (some p.thread ∷ [], 2, w1)
  unfolding create_all
  created w w1 e =
      rw (create_thread_step L env P.create do_nothing 0 0 1 2 w w1 e, p.create w1) refl

  -- The main thread cleans up in its join, and the second thread does all it has to do meanwhile.
  joined :
      (w1 v v' : World) (ret : ℕ)
      → env.skip_first ≡ false
      → clean L false cleanup_fuel 0 w1 ≡ ok (some v)
      → start_thread L false cleanup_fuel nothing_to_do v ≡ ok (some (ret, v'))
      → join_all L P env false cleanup_fuel (some p.thread ∷ []) true w1 ≡ ok (some v')
  unfolding join_all
  joined w1 v v' ret skip cleaned ran =
      rw (join_first L env 0 (P.join p.thread) w1 v skip cleaned, p.join v v' ret ran) refl

  main_step :
      (w w1 v' : World)
      → create_all L P env false cleanup_fuel thread_num 0 w ≡ ok (some p.thread ∷ [], 2, w1)
      → join_all L P env false cleanup_fuel (some p.thread ∷ []) true w1 ≡ ok (some v')
      → main L P env false cleanup_fuel w ≡ ok (some (0, v'))
  unfolding main
  main_step w w1 v' e e' = rw (e, e') refl

-- A process whose tables are not in use, with neither SKIP_FIRST_THREAD nor SKIP_CLEANUP set, and
-- with a path of fewer than 256 characters to a pool file of at most 512 loadable commands that name different objects, which have the
-- symbols that the runtime needs, and whose variables do not overlap. If pthread starts the second
-- thread when `main` waits for it, and comes back from the wait when its start routine has, then
-- `main` returns 0: between, the scavengers that the main thread was given run to their end in its
-- join, the second thread starts with the tables that this leaves, and by the end the scavengers
-- that it was given have run to their end, too. Neither thread hosts any in the end.
pub main_ends :
    (L : Loader) (P : Pthread) (env : Environment) (path : List ℕ) (lines : List (List ℕ))
    (w : World)
    → IsPthread L P nothing_to_do
    → IsUnused w
    → IsLinking L
    → IsApart L
    → env.skip_first ≡ false
    → env.pool_path ≡ some path
    → strlen path < path_size
    → env.file path ≡ some lines
    → AllLoadable L lines
    → AllDistinct L lines
    → count_commands lines ≤ max_active_crt_num
    → (w1 v v1 v' : World) × (main L P env false cleanup_fuel w ≡ ok (some (0, v')))
      × (create L env 0 w ≡ ok (some 1, 2, w1))
      × Drained 0 w1 v
      × (alloc_ctx L 1 v ≡ ok (pos 0, v1))
      × Drained 1 v1 v'
unfolding start_thread do_nothing
main_ends L P env path lines w p unused l apart skip path_set fits opens loadable distinct room =
    let f =
      first_thread_lem L env path lines w unused l apart skip path_set fits opens loadable distinct
        room in
    let (settled, down) = handed_on L env lines w 1 l distinct refl f in
    let (v1, given, cleanable) = begun L 1 f.at_clean apart (omega arith) settled down in
    let (v', ran, drained) =
      start_routine_returns L 1 0 (do_nothing 0) f.at_clean v1 v1 given refl cleanable in
    (
      f.at_create,
      f.at_clean,
      v1,
      v',
      main_step L P env p w f.at_create v' (created L P env p w f.at_create f.created)
          (joined L P env p f.at_create f.at_clean v' 0 skip f.cleaned ran),
      f.created,
      f.drained,
      given,
      drained,
    )
