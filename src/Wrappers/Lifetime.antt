-- ===== src/Wrappers/Lifetime.antt =====
-- libmsh/pthread.c: threads from their start to their end.
use msh.Prelude.{false, ℕ, ◌<◌, ◌≡◌, refl, false, some, pos, ok}
use msh.Memory.{max_thread_num, World, Loader}
use msh.Symbols.Offsets.{IsApart}
use msh.Allocate.Offsets.{IsSettled}
use msh.Cleanup.Drain.{cleanup_fuel}
use msh.Cleanup.Done.{Drained}
use msh.Thread.{alloc_ctx}
use msh.Wrappers.{start_routine}
use msh.Wrappers.First.{begun}
use msh.Wrappers.Ending.{start_routine_returns}

-- A thread with a number below 128 that starts while none is in a blockable call, in consistent
-- tables with every object linked, where the variables of the objects do not overlap, no two entries
-- of the pool share an object, and what the thread hosts already has its offset in its `crt_pos`.
-- If its routine makes no call into the runtime, `msh_start_routine` comes back with what the routine
-- returns, with SKIP_CLEANUP not set. By then the scavengers that the thread was given have all run
-- to their end, and it hosts none.
pub start_routine_whole :
    (L : Loader) (t : ℕ) (value : World → ℕ) (w : World)
    → IsApart L
    → t < max_thread_num
    → IsSettled L t w
    → ((s : ℕ) → (w.prim s).reallocatable ≡ false)
    → (w1 w' : World) × (alloc_ctx L t w ≡ ok (pos 0, w1))
      × (start_routine L false cleanup_fuel t (λ v. ok (value v, v)) w ≡ ok (some (value w1, w')))
      × Drained t w1 w'
start_routine_whole L t value w apart inside s idle =
    let (w1, given, cleanable) = begun L t w apart inside s idle in
    let (w', ran, drained) =
      start_routine_returns L t (value w1) (λ v. ok (value v, v)) w w1 w1 given refl cleanable in
    (w1, w', given, ran, drained)
