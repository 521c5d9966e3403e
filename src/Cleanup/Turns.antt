-- ===== src/Cleanup/Turns.antt =====
-- The jumps of a cleanup, whatever the variables of the scavengers hold: each scavenger that the
-- scheduler resumes returns the offset of its position.
use msh.Prelude.{
  ℕ, zero, suc, ◌+◌, ◌*◌, ◌<◌, ◌≡◌, inl, inr, ap, ◌∙◌, sym, false, some, pos, Outcome, ok, ◌>>=◌,
  arith,
}
use msh.Memory.{sizeof_yield_ctx, World, Loader}
use msh.IdxList.{hosted, find_unfinished_crt}
use msh.IdxList.Push.{find_unfinished_cases}
use msh.NextMap.{has_next}
use msh.Hosting.{idx_at, IsHosting}
use msh.Hosting.Steps.{Same-IsHosting, Detach-IsHosting}
use msh.Schedule.{Switch, resume, end_cleanup, switch_cleanup, sched_next_crt}
use msh.Schedule.Leaving.{taken_out}
use msh.Schedule.Draining.{
  primary_over, primary_over_mark, primary_over_list, sched_next_crt_position, sched_from_draining,
  sched_next_crt_offset, switch_cleanup_end, switch_cleanup_next,
}
use msh.Cleanup.{Control, returned, running, link_to_self, after_setjmp, msh_cleanup}
use msh.Cleanup.Prepare.{prepared-Same, prepared-Quiet, link_to_self-Same, link_to_self-Quiet}
use msh.Cleanup.Taken.{taken_out-Detach, still_over, hosted-taken_out, taken_out-Quiet}
use msh.Cleanup.Done.{
  Drained, primary_reset, after_setjmp_done, reset-Drained, Same-Drained, Detach-Drained, at_pos,
  at_pos-Same, at_pos-Quiet,
}
use msh.Cleanup.Tables.{after_setjmp_next}

-- Control from where it is to the return of `msh_cleanup`: the `longjmp` leads back behind the
-- `setjmp`, and the coroutine that runs next is the one that the scheduler has jumped to, at the
-- stack and instruction pointers of its context, which returns the offset of its own position.
pub data Runs (L : Loader) (t : ℕ) : Control → World → Type 0 where
  comes_back : (w : World) → Runs L t (returned w) w
  jumps_back :
      (w v : World) (c : Control)
      → after_setjmp L t w ≡ ok c
      → Runs L t c v
      → Runs L t (running end_cleanup w) v
  returns_offset :
      (p i : ℕ) (w w1 v : World) (s : Switch)
      → idx_at w t p ≡ some i
      → sched_next_crt L t (p * sizeof_yield_ctx) w ≡ ok (s, w1)
      → Runs L t (running s w1) v
      → Runs L t (running (resume p ((w.prim t).ycs p).sp ((w.prim t).ycs p).ip) w) v

-- From the cleanup branch of the scheduler to the end.
record Drains (L : Loader) (t : ℕ) (w : World) (out : Outcome (Switch × World)) : Type 0 where
  to : Switch
  next : World
  last : World
  result : out ≡ ok (to, next)
  runs : Runs L t (running to next) last
  drained : Drained t w last

-- A cleanup from its start to its end.
pub record Ended (L : Loader) (t : ℕ) (w : World) : Type 0 where
  pub first : Control
  pub last : World
  pub result : msh_cleanup L t false w ≡ ok first
  pub runs : Runs L t first last
  pub drained : Drained t w last

module _ (L : Loader) (t : ℕ) where
  drains :
      (n : ℕ) (w : World)
      → IsHosting w
      → has_next (w.prim t).ycs 0 ≡ false
      → hosted (w.prim t).idx_list < n
      → Drains L t w (switch_cleanup t (find_unfinished_crt (w.prim t).idx_list) w)
  drains zero w h over less = absurd (omega arith)
  drains (suc n) w h over less = elim (find_unfinished_cases (w.prim t).idx_list) [
    | inl all ↦
        let v : World = at_pos t (pos 0) w in
        record {
          to = end_cleanup;
          next = v;
          last = primary_reset t v;
          result = rw (all.result) (switch_cleanup_end t w);
          runs =
              jumps_back v (primary_reset t v) (returned (primary_reset t v))
                (after_setjmp_done L t v all.result) (comes_back (primary_reset t v));
          drained =
              Same-Drained t w v (primary_reset t v) (at_pos-Same t (pos 0) w)
                (at_pos-Quiet t (pos 0) w)
                (reset-Drained t v (Same-IsHosting h (at_pos-Same t (pos 0) w)) all);
        }
    | inr (p, first) ↦
        let (i, was) = first.holds in
        let v : World = at_pos t (pos p) w in
        let hv = Same-IsHosting h (at_pos-Same t (pos p) w) in
        let gone = taken_out-Detach t p i v first.lower was in
        let fewer = hosted-taken_out t p i v first.lower was first.upper in
        let rest =
          drains n (taken_out t p v) (Detach-IsHosting hv first.lower first.upper gone was)
            (still_over t p i v first.lower was over) (omega (arith, fewer, less)) in
        record {
          to = resume p ((w.prim t).ycs p).sp ((w.prim t).ycs p).ip;
          next = v;
          last = rest.last;
          result = rw (first.result) (switch_cleanup_next t p w first.lower first.upper);
          runs =
              returns_offset p i v rest.next rest.last rest.to was
                (sched_next_crt_offset L t p v
                  ∙ sched_from_draining L t p i v first.lower first.upper was over
                  ∙ rest.result)
                rest.runs;
          drained =
              Same-Drained t w v rest.last (at_pos-Same t (pos p) w) (at_pos-Quiet t (pos p) w) (
                Detach-Drained t p i v (taken_out t p v) rest.last was gone
                  (taken_out-Quiet t p i v first.lower was) rest.drained);
        }
  ]

  pub cleanup_runs : (w : World) → IsHosting w → Ended L t w
  unfolding msh_cleanup
  cleanup_runs w h = elim (find_unfinished_cases ((link_to_self t w).prim t).idx_list) [
    | inl all ↦
        let v = link_to_self t w in
        record {
          first = returned (primary_reset t v);
          last = primary_reset t v;
          result = after_setjmp_done L t v all.result;
          runs = comes_back (primary_reset t v);
          drained =
              Same-Drained t w v (primary_reset t v) (link_to_self-Same t w)
                (link_to_self-Quiet t w)
                (reset-Drained t v (Same-IsHosting h (link_to_self-Same t w)) all);
        }
    | inr (p, first) ↦
        let v = link_to_self t w in
        let x = primary_over t v in
        let free = (link_to_self-Same t w).idx t 0 ∙ h.reserved t in
        let rest =
          drains (hosted (x.prim t).idx_list + 1) x (Same-IsHosting h (prepared-Same t w))
            (primary_over_mark t v) (omega arith) in
        record {
          first = running rest.to rest.next;
          last = rest.last;
          result =
              after_setjmp_next L t v (ground (arith, first.result, first.lower))
              ∙ ap (λ (o : Outcome (Switch × World)). o >>= λ (s, y). ok (running s y))
                  (sched_next_crt_position L t 0 v (omega arith) free
                    ∙ ap (λ l. switch_cleanup t (find_unfinished_crt l) x)
                        (sym (primary_over_list t v))
                    ∙ rest.result);
          runs = rest.runs;
          drained =
              Same-Drained t w x rest.last (prepared-Same t w) (prepared-Quiet t w) rest.drained;
        }
  ]
