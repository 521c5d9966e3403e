-- ===== src/Tests/Programs.antt =====
-- The template program in the process of Tests.Startup, with the pthread of one more thread.
use msh.Prelude.{
  ℕ, ◌≡◌, refl, Option, false, none, some, [], ◌∷◌, pos, Outcome, ok, exit, fault, arith,
}
use msh.Memory.{World}
use msh.Cleanup.Drain.{cleanup_fuel}
use msh.Cleanup.Done.{Drained}
use msh.Thread.{alloc_ctx}
use msh.Wrappers.{create, start_thread}
use msh.Apps.Template.{Pthread, main}
use msh.Init.{strlen}
use msh.Apps.Template.Ends.{IsPthread, nothing_to_do, main_ends}
use msh.Tests.Startup.{
  opener, opener-IsLinking, environment, new_world, new_world-IsUnused, pool_lines,
  pool-AllLoadable, pool_size,
}
use msh.Tests.Lifetime.{opener-IsApart, pool-AllDistinct}

-- The world in which a thread has ended, or the one in which it has not started.
ended_in : World → Outcome (Option (ℕ × World)) → World
ended_in w (ok (some (ret, v))) = v
ended_in w (ok none) = w
ended_in w exit = w
ended_in w fault = w

-- Thread 7, which runs when it is waited for.
abbrev one_more : Pthread
one_more = record {
  create = λ a w. ((pos 0, 7), w);
  join = λ h w. (pos 0, ended_in w (start_thread opener false cleanup_fuel nothing_to_do w));
}

one_more-IsPthread : IsPthread opener one_more nothing_to_do
unfolding ended_in
one_more-IsPthread = record {
  thread = 7;
  create = λ w. refl;
  join = λ v v' ret e. λ k. (pos 0, ended_in v (e k));
}

main_ends_example :
    (w1 v v1 v' : World) × (main opener one_more environment false cleanup_fuel new_world
      ≡ ok (some (0, v')))
    × (create opener environment 0 new_world ≡ ok (some 1, 2, w1))
    × Drained 0 w1 v
    × (alloc_ctx opener 1 v ≡ ok (pos 0, v1))
    × Drained 1 v1 v'
unfolding strlen
main_ends_example =
    main_ends opener one_more environment (112 ∷ []) pool_lines new_world one_more-IsPthread
      new_world-IsUnused opener-IsLinking opener-IsApart refl refl (omega arith) refl
      pool-AllLoadable pool-AllDistinct (omega (arith, pool_size))
