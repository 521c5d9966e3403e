-- ===== src/Runtime/Calls.antt =====
-- The calls that libmsh/pthread.c and the coroutines of a thread may make, and where they lead.
use msh.Prelude.{none, Option, ℕ, ◌/◌, ◌≤◌, ◌≡◌, Bool, false, some}
use msh.Memory.{max_crt_per_thread, sizeof_yield_ctx, World, Loader}
use msh.NextMap.{has_next}
use msh.Hosting.{idx_at}
use msh.IdxList.{find_unfinished_crt}
use msh.Schedule.{Switch, resume, end_cleanup}
use msh.Runtime.{
  Phase, System, absent, working, blocked, ending, Step, starts, refused, enters, spins, exits,
  returns, cleans, drains, rejoins,
}
use msh.Runtime.Isolation.{actor}

-- What a thread may call, and what may come back to its scheduler.
pub data Call : Type 0 where
  begin enter leave wait rejoin : Call
  come_back : ℕ → Call
  clean : Bool → Call

-- The call of a step.
unfoldable pub call_of : {L : Loader} {S T : System} → Step L S T → Call
call_of (starts t w at_ e) = begin
call_of (refused t w at_ e) = begin
call_of (enters t at_) = enter
call_of (spins t at_ e) = wait
call_of (exits t w at_ e) = leave
call_of (returns t ret s w at_ e) = come_back ret
call_of (cleans t skip c at_ e) = clean skip
call_of (drains t ret s w at_ e) = come_back ret
call_of (rejoins t c at_ e) = rejoin

-- A scavenger that is hosted has returned while the thread works; or its primary has finished, and
-- any position of the array comes back.
pub data IsReturn (S : System) (t ret : ℕ) : Type 0 where
  scavenger :
      (i : ℕ)
      → S.phase t ≡ working
      → sizeof_yield_ctx ≤ ret
      → ret / sizeof_yield_ctx ≤ max_crt_per_thread
      → idx_at S.world t (ret / sizeof_yield_ctx) ≡ some i
      → IsReturn S t ret
  draining :
      S.phase t ≡ ending
      → has_next (S.world.prim t).ycs 0 ≡ false
      → ret / sizeof_yield_ctx ≤ max_crt_per_thread
      → IsReturn S t ret

-- A thread is where libmsh/pthread.c makes it call so.
unfoldable pub MayCall : System → ℕ → Call → Type 0
MayCall S t begin = S.phase t ≡ absent
MayCall S t enter = S.phase t ≡ working
MayCall S t leave = S.phase t ≡ blocked
MayCall S t wait = ⊥
MayCall S t rejoin = S.phase t ≡ ending
MayCall S t (come_back ret) = IsReturn S t ret
MayCall S t (clean skip) = S.phase t ≡ working

-- Where the scheduler jumps to in a step that is a return to it.
unfoldable pub jump_of : {L : Loader} {S T : System} → Step L S T → Option Switch
jump_of (starts t w at_ e) = none
jump_of (refused t w at_ e) = none
jump_of (enters t at_) = none
jump_of (spins t at_ e) = none
jump_of (exits t w at_ e) = none
jump_of (returns t ret s w at_ e) = some s
jump_of (cleans t skip c at_ e) = none
jump_of (drains t ret s w at_ e) = some s
jump_of (rejoins t c at_ e) = none

-- A jump that a thread may make in this phase: to a coroutine at a position of the array, with the
-- stack and instruction pointers of its context; and, while it cleans up and hosts no scavenger, to
-- its `setjmp`, which it has passed then.
pub data MayJump (t : ℕ) (w : World) : Phase → Switch → Type 0 where
  to_crt :
      (p : Phase) (k : ℕ)
      → k ≤ max_crt_per_thread
      → MayJump t w p (resume k ((w.prim t).ycs k).sp ((w.prim t).ycs k).ip)
  to_setjmp : find_unfinished_crt (w.prim t).idx_list ≡ 0 → MayJump t w ending end_cleanup

-- A step of thread `t` that makes this call, and whose jump is one that it may make.
pub record Steps (L : Loader) (S : System) (t : ℕ) (c : Call) : Type 0 where
  pub after : System
  pub step : Step L S after
  pub own : actor step ≡ t
  pub made : call_of step ≡ c
  pub jump : (s : Switch) → jump_of step ≡ some s → MayJump t after.world (S.phase t) s
