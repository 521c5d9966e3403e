-- ===== src/Schedule/Return.antt =====
-- The scheduler's part before the jump: the returned scavenger is taken out, the list is packed and
-- refilled.
use mathlib.Core.Path.{subst, ap₂}
use msh.Prelude.{
  ℕ, ◌*◌, ◌≤◌, ◌≡◌, ap, ◌∙◌, sym, true, false, ◌==◌, if◌then◌else◌, update, some, pos, Outcome, ok,
  arith,
}
use msh.Memory.{max_crt_per_thread, sizeof_yield_ctx, YieldCtx, World, Loader}
use msh.IdxList.{IdxList}
use msh.IdxList.Ends.{IsPacked}
use msh.NextMap.{has_next}
use msh.Hosting.{idx_at, IsHosting}
use msh.Hosting.Steps.{Same-IsHosting}
use msh.Hosting.Gain.{IsPacked-congr}
use msh.Symbols.Frame.{IsLinked-handle}
use msh.Finish.{finish_crt, Finished, finish_crt_scavenger, finish_crt-IsHosting}
use msh.Pack.{pack_crts}
use msh.Pack.Loop.{pack_crts_lem}
use msh.Pack.Packing.{Packing}
use msh.Schedule.{Switch, resume, counted, sched_from, sched_next_crt}
use msh.Schedule.Running.{IsReady, Given, Remapped, update_map_lem, refill_lem}
use msh.Schedule.Leaving.{
  taken_out, counted-IsHosting, sched_from_running, switch_to_primary, cur_crt_pos-IsReady,
}

module _ (L : Loader) (t p i : ℕ) (w : World) (r : IsReady L t w) (lo : 1 ≤ p)
    (hi : p ≤ max_crt_per_thread) (was : idx_at w t p ≡ some i) where
  done : Finished t p i (counted w) (finish_crt t p (counted w))
  done = finish_crt_scavenger t p i (counted w) lo was

  remapped : Remapped t (finish_crt t p (counted w)) (taken_out t p w)
  unfolding taken_out
  remapped = update_map_lem t (finish_crt t p (counted w))

  taken_out_others : (s q : ℕ) → (t == s) ≡ false → idx_at (taken_out t p w) s q ≡ idx_at w s q
  taken_out_others s q off =
      ap (λ (l : IdxList). l q) (remapped.idx_list s) ∙ ground (arith, done.detach.idx s q)

  taken_out_sp : (((taken_out t p w).prim t).ycs 0).sp ≡ ((w.prim t).ycs 0).sp
  taken_out_sp = remapped.sp ∙ ap (λ (y : YieldCtx). y.sp) done.primary

  taken_out_ip : (((taken_out t p w).prim t).ycs 0).ip ≡ ((w.prim t).ycs 0).ip
  taken_out_ip = remapped.ip ∙ ap (λ (y : YieldCtx). y.ip) done.primary

  -- A thread with its flag up is another one.
  donor_other :
      (s : ℕ) (v : World)
      → (v.prim t).reallocatable ≡ false
      → (v.prim s).reallocatable ≡ true
      → (t == s) ≡ false
  donor_other s v down up = ground arith

  taken_out_own : ((taken_out t p w).prim t).reallocatable ≡ false
  taken_out_own = remapped.flags t ∙ done.flags t ∙ r.own

  taken_out-IsHosting : IsHosting (taken_out t p w)
  taken_out-IsHosting =
      Same-IsHosting
        (finish_crt-IsHosting t p i (counted w) (counted-IsHosting r.hosting) lo hi was)
        remapped.same

  taken_out-IsReady : IsReady L t (taken_out t p w)
  taken_out-IsReady = record {
    hosting = taken_out-IsHosting;
    linked = IsLinked-handle r.linked (λ j. remapped.same.handle j ∙ done.detach.handle j);
    donors = λ s up.
        IsPacked-congr (w.prim s).idx_list ((taken_out t p w).prim s).idx_list
          (λ q. taken_out_others s q (donor_other s (taken_out t p w) taken_out_own up))
          (r.donors s (sym (remapped.flags s ∙ done.flags s) ∙ up));
    own = taken_out_own;
    running =
        remapped.runs ∙ ap (λ (y : YieldCtx). has_next (λ (k : ℕ). y) 0) done.primary ∙ r.running;
  }

  -- The thread's list is packed again.
  pub record Repacked (v : World) : Type 0 where
    pub result : pack_crts L t (taken_out t p w) ≡ ok v
    pub packing : Packing L t (taken_out t p w) v
    pub packed : IsPacked (v.prim t).idx_list

  repacked : (v : World) × Repacked v
  repacked =
      let (v, e, packing, packed) =
        pack_crts_lem L t (taken_out t p w) taken_out-IsReady.hosting taken_out-IsReady.linked
          taken_out-IsReady.running in
      (v, record { result = e; packing = packing; packed = packed })

  repacked-IsReady : (v : World) → Repacked v → IsReady L t v
  repacked-IsReady v k = record {
    hosting = k.packing.hosting;
    linked = k.packing.linked;
    donors = λ s up.
        IsPacked-congr ((taken_out t p w).prim s).idx_list (v.prim s).idx_list
          (λ q. k.packing.others s q (donor_other s v (k.packing.flags t ∙ taken_out_own) up))
          (taken_out-IsReady.donors s (sym (k.packing.flags s) ∙ up));
    own = k.packing.flags t ∙ taken_out_own;
    running = k.packing.primary_runs ∙ taken_out-IsReady.running;
  }

  -- The primary is resumed where it was, in a state from which the thread can go on.
  pub record Resumed (out : Outcome (Switch × World)) : Type 0 where
    pub after : World
    pub result : out ≡ ok (resume 0 ((w.prim t).ycs 0).sp ((w.prim t).ycs 0).ip, after)
    pub ready : IsReady L t after
    pub packed : IsPacked (after.prim t).idx_list
    pub finished :
        (j : ℕ) → (after.scav j).finished ≡ (if i == j then true else (w.scav j).finished)
    pub repacked_world : World
    pub packing : Packing L t (taken_out t p w) repacked_world
    pub closed_up : IsPacked (repacked_world.prim t).idx_list
    pub given : Given t repacked_world after

  -- A scavenger whose link leads to the primary returns while the primary runs. It is finished,
  -- alone; the list is packed and refilled; and the primary goes on where it was.
  pub sched_from_lem : ((w.prim t).ycs p).normal_next ≡ pos 0 → Resumed (sched_from L t p w)
  sched_from_lem zero_next =
      let (v, k) = repacked in
      let f = refill_lem L t v (repacked-IsReady v k) in
      record {
        after = record f.after { cur_crt_pos = update f.after.cur_crt_pos t (pos 0) };
        result =
            sched_from_running L t p w v f.after lo hi k.result f.result f.ready.running zero_next
            ∙ switch_to_primary t f.after
            ∙ ap₂
                (λ sp ip. ok (
                  resume 0 sp ip,
                  record f.after { cur_crt_pos = update f.after.cur_crt_pos t (pos 0) },
                ))
                (f.sp ∙ k.packing.primary_sp ∙ taken_out_sp)
                (f.ip ∙ k.packing.primary_ip ∙ taken_out_ip);
        ready = cur_crt_pos-IsReady (update f.after.cur_crt_pos t (pos 0)) f.ready;
        packed = f.packed t k.packed;
        finished = λ j.
            f.finished j ∙ k.packing.finished j ∙ remapped.same.finished j ∙ done.detach.finished j;
        repacked_world = v;
        packing = k.packing;
        closed_up = k.packed;
        given = record {
          taken = f.given.taken;
          count = f.given.count;
          stops = f.given.stops;
          pointed = f.given.pointed;
        };
      }

-- `tl_sched_next_crt` on what a scavenger at `p` returns if its `crt_pos` holds the offset of `p`:
-- for a thread that is ready, if the scavenger's link leads to the primary, the primary goes on
-- where it was, in a state from which the thread can go on; the scavenger is finished, no other is,
-- and the thread's list has no hole. It is first packed without the scavenger, in the order that it
-- had, and the thread is then given as many as it wants, unless it hosts 128 then or no entry of the
-- pool can be allocated any more; the primary yields to the first scavenger of the thread.
pub sched_next_crt_lem :
    (L : Loader) (t p i : ℕ) (w : World)
    → (r : IsReady L t w) → (lo : 1 ≤ p) → (hi : p ≤ max_crt_per_thread)
    → (was : idx_at w t p ≡ some i) → ((w.prim t).ycs p).normal_next ≡ pos 0
    → Resumed L t p i w r lo hi was (sched_next_crt L t (p * sizeof_yield_ctx) w)
unfolding sched_next_crt
sched_next_crt_lem L t p i w r lo hi was zero_next =
    subst (λ q. Resumed L t p i w r lo hi was (sched_from L t q w)) (omega arith)
      (sched_from_lem L t p i w r lo hi was zero_next)
