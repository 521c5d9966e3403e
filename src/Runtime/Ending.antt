-- ===== src/Runtime/Ending.antt =====
-- The cleanup of a thread, from every state that the threads come to.
use msh.Prelude.{ℕ, List, ℤ}
use msh.Memory.{World, Loader}
use msh.Init.Start.{Started}
use msh.Wrappers.Startup.{IsLinking}
use msh.Cleanup.Turns.{Ended, cleanup_runs}
use msh.Runtime.{System, at_start, Reach}
use msh.Runtime.Safety.{reachable-IsConsistent}

-- In every state that the threads come to, after `msh_init` with a pool whose objects have the
-- symbols: the `msh_cleanup` of any thread, without SKIP_CLEANUP, comes back, while no other thread
-- calls, if each scavenger that the scheduler resumes for it returns the offset of its own position,
-- whatever the variables of the scavengers hold. The control goes from each jump of the scheduler to
-- the coroutine at the position and with the stack and instruction pointers of the jump, or back
-- behind the `setjmp`. Then every scavenger that the thread hosted is finished, it hosts none, its
-- primary's link is reset, and the contexts of the other threads are as before.
pub cleanup_ends :
    (L : Loader) (lines : List (List ℕ)) (most : ℤ) (w : World) (S : System)
    → IsLinking L
    → Started L lines most w
    → Reach L (at_start w) S
    → (t : ℕ) → Ended L t S.world
cleanup_ends L lines most w S l started r t =
    cleanup_runs L t S.world (reachable-IsConsistent L lines most w S l started r).hosting
