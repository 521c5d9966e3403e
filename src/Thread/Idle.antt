-- ===== src/Thread/Idle.antt =====
-- The start of a thread while no thread is in a blockable call.
use msh.Prelude.{ℕ, ◌≡◌, refl, ℤ, ok, arith}
use msh.Memory.{World, Loader}
use msh.Allocate.Idle.{AllDown, StaysIdle, StaysIdle-chain, StaysIdle-same, allocate_scav-StaysIdle}
use msh.Schedule.{update_map}
use msh.Schedule.Running.{update_map_lem}
use msh.Thread.{init_primary_ctx, clear_reallocated, alloc_ctx}
use msh.Thread.Kept.{IsKept, alloc_ctx-kept}

module _ (L : Loader) (t : ℕ) where
  init_idle : (n : ℕ) (w : World) → AllDown w → StaysIdle w (init_primary_ctx t n w)
  unfolding init_primary_ctx
  init_idle n w down = record { down = λ s. ground (arith, down s); handle = λ j. refl }

  idle-IsKept : IsKept L t (λ w w'. AllDown w → StaysIdle w w')
  idle-IsKept = record {
    chain = StaysIdle-chain;
    start = λ w. StaysIdle-same w _ (λ s. refl) (λ j. refl);
    allocate = allocate_scav-StaysIdle L t;
    init = init_idle;
    lower = λ w down. record { down = λ s. ground (arith, down s); handle = λ j. refl };
    map = λ w. StaysIdle-same w (update_map t w) (update_map_lem t w).flags (λ j. refl);
    clear = λ w. StaysIdle-same w (clear_reallocated t w) (λ s. ground arith) (λ j. refl);
  }

  pub alloc_ctx-StaysIdle :
      (r : ℤ) (w w' : World) → alloc_ctx L t w ≡ ok (r, w') → AllDown w → StaysIdle w w'
  alloc_ctx-StaysIdle = alloc_ctx-kept idle-IsKept
