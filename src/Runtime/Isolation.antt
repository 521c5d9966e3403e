-- ===== src/Runtime/Isolation.antt =====
-- What a call of one thread leaves alone of the others.
use msh.Prelude.{ℕ, ◌≤◌, ◌≡◌, refl, ap, ◌∙◌, false, ◌==◌, some, List, ℤ, pos, minus_one}
use msh.Memory.{max_crt_per_thread, yield_ptr, PrimaryCtx, World, Loader}
use msh.Hosting.{idx_at}
use msh.Init.Start.{Started}
use msh.Wrappers.Startup.{IsLinking}
use msh.Cleanup.Frame.{after_setjmp_prim, msh_cleanup_prim}
use msh.Schedule.Frame.{sched_next_crt_prim}
use msh.Thread.Frame.{alloc_ctx_prim, enter_blockable_call_prim, exit_blockable_call_prim}
use msh.Runtime.{
  System, at_start, Step, Reach, starts, refused, enters, spins, exits, returns, cleans, drains,
  rejoins,
}
use msh.Runtime.Consistent.{is_blocked, Step-Safe}
use msh.Runtime.Safety.{reachable-IsConsistent}

-- The thread that makes the step.
unfoldable pub actor : {L : Loader} {S T : System} → Step L S T → ℕ
actor (starts t w at_ e) = t
actor (refused t w at_ e) = t
actor (enters t at_) = t
actor (spins t at_ e) = t
actor (exits t w at_ e) = t
actor (returns t ret s w at_ e) = t
actor (cleans t skip c at_ e) = t
actor (drains t ret s w at_ e) = t
actor (rejoins t c at_ e) = t

Step-prim :
    {L : Loader} {S T : System} (m : Step L S T) (s : ℕ)
    → (actor m == s) ≡ false
    → (S.world.prim s).reallocatable ≡ false
    → T.world.prim s ≡ S.world.prim s
unfolding actor
Step-prim {L} {S} (starts t w at_ e) s off down = alloc_ctx_prim L t s off (pos 0) S.world w down e
Step-prim {L} {S} (refused t w at_ e) s off down =
    alloc_ctx_prim L t s off minus_one S.world w down e
Step-prim {L} {S} (enters t at_) s off down = enter_blockable_call_prim L t s off S.world
Step-prim (spins t at_ e) s off down = refl
Step-prim {L} {S} (exits t w at_ e) s off down = exit_blockable_call_prim L t s off S.world w down e
Step-prim {L} {S} (returns t ret to w at_ e) s off down =
    sched_next_crt_prim L t s off ret S.world w to down e
Step-prim {L} {S} (cleans t skip c at_ e) s off down =
    msh_cleanup_prim L t s off skip S.world c down e
Step-prim {L} {S} (drains t ret to w at_ e) s off down =
    sched_next_crt_prim L t s off ret S.world w to down e
Step-prim {L} {S} (rejoins t c at_ e) s off down = after_setjmp_prim L t s off S.world c down e

Step-phase :
    {L : Loader} {S T : System} (m : Step L S T) (s : ℕ)
    → (actor m == s) ≡ false
    → T.phase s ≡ S.phase s
unfolding actor
Step-phase (starts t w at_ e) s off = rw off refl
Step-phase (refused t w at_ e) s off = rw off refl
Step-phase (enters t at_) s off = rw off refl
Step-phase (spins t at_ e) s off = refl
Step-phase (exits t w at_ e) s off = rw off refl
Step-phase (returns t ret to w at_ e) s off = rw off refl
Step-phase (cleans t skip c at_ e) s off = rw off refl
Step-phase (drains t ret to w at_ e) s off = rw off refl
Step-phase (rejoins t c at_ e) s off = rw off refl

-- A thread before and after a step of another.
pub record Untouched (s : ℕ) (S T : System) : Type 0 where
  pub context : T.world.prim s ≡ S.world.prim s
  pub phase : T.phase s ≡ S.phase s
  pub scavengers :
      (p i : ℕ)
      → 1 ≤ p
      → p ≤ max_crt_per_thread
      → idx_at S.world s p ≡ some i
      → ((T.world.scav i).yc ≡ some (yield_ptr s p)) × ((T.world.scav i).finished ≡ false)

-- In every state that the threads come to, after `msh_init` with a pool whose objects have the
-- symbols: a call of one thread, whichever it is and whatever its coroutines return, leaves every
-- other thread alone that is not in a blockable call. Its whole context in PRIM_TABLE is as before,
-- and each scavenger that it hosts is still at the same position of it, and not finished.
pub Step-Untouched :
    (L : Loader) (lines : List (List ℕ)) (most : ℤ) (w : World) (S T : System)
    → IsLinking L
    → Started L lines most w
    → Reach L (at_start w) S
    → (m : Step L S T) (s : ℕ) → (actor m == s) ≡ false
    → is_blocked (S.phase s) ≡ false
    → Untouched s S T
Step-Untouched L lines most w S T l started r m s off free =
    let c = reachable-IsConsistent L lines most w S l started r in
    let after = Step-Safe c m in
    let same : T.world.prim s ≡ S.world.prim s = Step-prim m s off (c.flag s ∙ free) in
    record {
      context = same;
      phase = Step-phase m s off;
      scavengers = λ p i lo hi at_.
          let here : idx_at T.world s p ≡ some i =
            ap (λ (x : PrimaryCtx). x.idx_list p) same ∙ at_ in
          (
            after.consistent.hosting.host s p i lo hi here,
            after.consistent.hosting.unfinished s p i lo hi here,
          );
    }
