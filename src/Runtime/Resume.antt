-- ===== src/Runtime/Resume.antt =====
-- A return of a scavenger, in every state that the threads come to.
use mathlib.Core.Path.{subst}
use msh.Prelude.{
  ℕ, ◌*◌, ◌≤◌, ◌≡◌, inl, inr, ap, ◌∙◌, Bool, true, false, ◌==◌, if◌then◌else◌, some, List, ℤ, pos,
  minus_one, ok, ==→eq, Bool-cases, arith,
}
use msh.Memory.{max_crt_per_thread, sizeof_yield_ctx, World, Loader}
use msh.NextMap.Primary.{IsRunning}
use msh.IdxList.Ends.{IsPacked}
use msh.Hosting.{idx_at}
use msh.Init.Start.{Started}
use msh.Wrappers.Startup.{IsLinking}
use msh.Schedule.{resume, sched_next_crt}
use msh.Schedule.Primary.{sched_next_crt-IsRunning}
use msh.Schedule.Running.{IsReady}
use msh.Schedule.Return.{sched_next_crt_lem}
use msh.Cleanup.{world_of}
use msh.Cleanup.Primary.{after_setjmp-IsRunning, msh_cleanup-IsRunning}
use msh.Thread.{enter_blockable_call}
use msh.Thread.Primary.{
  alloc_ctx-IsRunning, alloc_ctx_runs, enter_blockable_call-IsRunning,
  exit_blockable_call-IsRunning,
}
use msh.Runtime.{
  Phase, absent, working, blocked, ending, System, go, phase_after, at_start, Step, Reach, here,
  later, starts, refused, enters, spins, exits, returns, cleans, drains, rejoins,
}
use msh.Runtime.Consistent.{is_blocked, is_ending, donors}
use msh.Runtime.Safety.{reachable-IsConsistent}
use msh.Runtime.Links.{reachable-IsPlainSystem}

-- A thread between its start and its cleanup.
abbrev is_alive : Phase → Bool
is_alive absent = false
is_alive working = true
is_alive blocked = true
is_alive ending = false

-- The primary of every such thread runs.
abbrev AllRunning : System → Type 0
AllRunning S = (s : ℕ) → is_alive (S.phase s) ≡ true → IsRunning (S.world.prim s).ycs

-- A step of thread `t` to phase `p`, which keeps the primaries of the others.
gone-AllRunning :
    (S : System) (t : ℕ) (p : Phase) (w : World)
    → AllRunning S
    → ((s : ℕ) → (t == s) ≡ false → IsRunning (S.world.prim s).ycs → IsRunning (w.prim s).ycs)
    → (is_alive p ≡ true → IsRunning (w.prim t).ycs)
    → AllRunning (go t p w S)
gone-AllRunning S t p w runs others own s on = elim (Bool-cases (t == s)) [
  | inl here_ ↦ subst (λ r. IsRunning (w.prim r).ycs) (==→eq t s here_) (own (ground arith))
  | inr there ↦ others s there (runs s (ground arith))
]

alive_after : (t : ℕ) (w : World) → is_alive (phase_after t w) ≡ true → IsRunning (w.prim t).ycs
alive_after t w e = ground arith

Step-AllRunning : {L : Loader} {S T : System} → Step L S T → AllRunning S → AllRunning T
Step-AllRunning {L} {S} (starts t w at_ e) runs =
    gone-AllRunning S t working w runs (λ s off. alloc_ctx-IsRunning L t s (pos 0) S.world w e)
      (λ d. alloc_ctx_runs L t S.world w e)
Step-AllRunning {L} {S} (refused t w at_ e) runs =
    gone-AllRunning S t ending w runs (λ s off. alloc_ctx-IsRunning L t s minus_one S.world w e)
      (λ d. cc)
Step-AllRunning {L} {S} (enters t at_) runs =
    gone-AllRunning S t blocked (enter_blockable_call t S.world) runs
      (λ s off. enter_blockable_call-IsRunning L t s S.world)
      (λ d. enter_blockable_call-IsRunning L t t S.world (runs t (ap is_alive at_)))
Step-AllRunning (spins t at_ e) runs = runs
Step-AllRunning {L} {S} (exits t w at_ e) runs =
    gone-AllRunning S t working w runs (λ s off. exit_blockable_call-IsRunning L t s S.world w e)
      (λ d. exit_blockable_call-IsRunning L t t S.world w e (runs t (ap is_alive at_)))
Step-AllRunning {L} {S} (returns t ret to w at_ e) runs =
    gone-AllRunning S t (phase_after t w) w runs
      (λ s off. sched_next_crt-IsRunning L t s off ret S.world w to e) (alive_after t w)
Step-AllRunning {L} {S} (cleans t skip c at_ e) runs =
    gone-AllRunning S t ending (world_of c) runs
      (λ s off. msh_cleanup-IsRunning L t s off skip S.world c e) (λ d. cc)
Step-AllRunning {L} {S} (drains t ret to w at_ e) runs =
    gone-AllRunning S t ending w runs
      (λ s off. sched_next_crt-IsRunning L t s off ret S.world w to e) (λ d. cc)
Step-AllRunning {L} {S} (rejoins t c at_ e) runs =
    gone-AllRunning S t ending (world_of c) runs
      (λ s off. after_setjmp-IsRunning L t s off S.world c e) (λ d. cc)

Reach-AllRunning : {L : Loader} {S T : System} → AllRunning S → Reach L S T → AllRunning T
Reach-AllRunning runs here = runs
Reach-AllRunning runs (later r m) = Step-AllRunning m (Reach-AllRunning runs r)

-- What a working thread relies on when it enters the runtime.
pub reachable-IsReady :
    (L : Loader) (lines : List (List ℕ)) (most : ℤ) (w : World) (S : System)
    → IsLinking L
    → Started L lines most w
    → Reach L (at_start w) S
    → (t : ℕ) → S.phase t ≡ working
    → IsReady L t S.world
reachable-IsReady L lines most w S l started r t at_ =
    let c = reachable-IsConsistent L lines most w S l started r in
    record {
      hosting = c.hosting;
      linked = c.linked;
      donors = donors c;
      own = c.flag t ∙ ap is_blocked at_;
      running = Reach-AllRunning (λ s on. cc on) r t (ap is_alive at_);
    }

-- A return to the scheduler that ends in the primary.
pub record GoesOn (L : Loader) (t p i : ℕ) (w : World) : Type 0 where
  pub after : World
  pub result :
      sched_next_crt L t (p * sizeof_yield_ctx) w
      ≡ ok (resume 0 ((w.prim t).ycs 0).sp ((w.prim t).ycs 0).ip, after)
  pub ready : IsReady L t after
  pub packed : IsPacked (after.prim t).idx_list
  pub finished : (j : ℕ) → (after.scav j).finished ≡ (if i == j then true else (w.scav j).finished)

-- In every state that the threads come to, after `msh_init` with a pool whose objects have the
-- symbols: a scavenger that a working thread hosts and that returns the offset of its position is
-- finished, and no other is; the primary of the thread goes on where it was, and it still runs; the
-- list of the thread has no hole.
pub return_resumes :
    (L : Loader) (lines : List (List ℕ)) (most : ℤ) (w : World) (S : System)
    → IsLinking L
    → Started L lines most w
    → Reach L (at_start w) S
    → (t p i : ℕ) → S.phase t ≡ working
    → 1 ≤ p
    → p ≤ max_crt_per_thread
    → idx_at S.world t p ≡ some i
    → GoesOn L t p i S.world
return_resumes L lines most w S l started r t p i at_ lo hi was =
    let ready = reachable-IsReady L lines most w S l started r t at_ in
    let plain = reachable-IsPlainSystem started r t (ap is_ending at_) p lo hi in
    let back =
      sched_next_crt_lem L t p i S.world ready lo hi was
        (plain (ground (arith, ready.hosting.live t p lo hi))) in
    record {
      after = back.after;
      result = back.result;
      ready = back.ready;
      packed = back.packed;
      finished = back.finished;
    }
