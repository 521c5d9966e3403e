-- ===== src/Runtime/Safety.antt =====
-- What holds whenever and in whatever order the threads call.
use msh.Prelude.{ℕ, ◌≤◌, ◌≡◌, ◌≢◌, true, some, List, ℤ, arith}
use msh.Memory.{max_crt_per_thread, World, Loader}
use msh.Hosting.{idx_at}
use msh.Init.Start.{Started}
use msh.Wrappers.Startup.{IsLinking, Started-IsLinked}
use msh.Runtime.{System, at_start, Reach, here, later}
use msh.Runtime.Consistent.{IsConsistent, Safe, Step-Safe}

at_start-IsConsistent :
    {L : Loader} {lines : List (List ℕ)} {most : ℤ} {w : World}
    → IsLinking L
    → Started L lines most w
    → IsConsistent L (at_start w)
at_start-IsConsistent {L} {lines} {most} {w} l s = record {
  hosting = s.hosting;
  linked = Started-IsLinked L lines most w l s;
  flag = λ t. s.flags t;
  packed = λ t e p q lo lt hi x. absurd (ground (arith, s.cleared.list t q hi));
}

Reach-Safe : {L : Loader} {S T : System} → IsConsistent L S → Reach L S T → Safe L S T
Reach-Safe c here = record { consistent = c; finished = λ j d. d }
Reach-Safe c (later r s) =
    let a = Reach-Safe c r in
    let b = Step-Safe a.consistent s in
    record { consistent = b.consistent; finished = λ j d. b.finished j (a.finished j d) }

-- Any number of threads start, enter and leave blockable calls, get coroutines back with any return
-- values, and clean up, in any order, after `msh_init` with a pool whose objects have the symbols.
-- In every state that they come to, the two tables are inverse to each other, what is hosted is
-- loaded and not finished, the flags are up of just the threads in a blockable call, and the list of
-- every thread that does not clean up is without holes.
pub reachable-IsConsistent :
    (L : Loader) (lines : List (List ℕ)) (most : ℤ) (w : World) (S : System)
    → IsLinking L
    → Started L lines most w
    → Reach L (at_start w) S
    → IsConsistent L S
reachable-IsConsistent L lines most w S l s r =
    (Reach-Safe (at_start-IsConsistent l s) r).consistent

-- After `msh_init` with a pool whose objects have the symbols, and whatever the threads do, in any
-- order: a scavenger that has finished is never hosted again, by any thread.
pub finished_never_hosted :
    (L : Loader) (lines : List (List ℕ)) (most : ℤ) (w : World) (S T : System)
    → IsLinking L
    → Started L lines most w
    → Reach L (at_start w) S
    → Reach L S T
    → (i t p : ℕ) → (S.world.scav i).finished ≡ true
    → 1 ≤ p
    → p ≤ max_crt_per_thread
    → idx_at T.world t p ≢ some i
finished_never_hosted L lines most w S T l s r r' i t p done lo hi at_ =
    let later_ = Reach-Safe (reachable-IsConsistent L lines most w S l s r) r' in
    absurd
      (ground (arith, later_.finished i done, later_.consistent.hosting.unfinished t p i lo hi at_))
