-- ===== src/Schedule/Running.antt =====
-- The scheduler while the primary runs: a scavenger has returned.
use mathlib.Core.Path.{subst}
use msh.Prelude.{◌+◌, ok, ◌>>=◌, ℕ, ◌≡◌, refl, ap, ◌∙◌, sym, true, false, Outcome, ok, arith}
use msh.Memory.{max_active_crt_num, PrimaryCtx, World, prim-put_prim, Loader}
use msh.IdxList.{IdxList, hosted, need_more_scav}
use msh.IdxList.Ends.{IsPacked}
use msh.NextMap.{has_next, update_next_map}
use msh.Allocate.Pool.{Stops}
use msh.NextMap.Available.{
  Pointed, update_next_map-Pointed, update_next_map_ne, update_next_map_rest,
  idx_list-update_next_map,
}
use msh.Hosting.{IsHosting}
use msh.Hosting.Steps.{Same, Same-IsHosting}
use msh.Symbols.Frame.{IsLinked, IsLinked-handle}
use msh.Allocate.Donors.{DonorsPacked, Gain-DonorsPacked}
use msh.Allocate.Whole.{allocate_scav_lem}
use msh.Allocate.{allocate_scav}
use msh.Schedule.{update_map, refill}

-- `tl_update_next_map` shows in the primary's link alone.
pub record Remapped (t : ℕ) (w w' : World) : Type 0 where
  pub same : Same w w'
  pub idx_list : (s : ℕ) → (w'.prim s).idx_list ≡ (w.prim s).idx_list
  pub flags : (s : ℕ) → (w'.prim s).reallocatable ≡ (w.prim s).reallocatable
  pub sp : ((w'.prim t).ycs 0).sp ≡ ((w.prim t).ycs 0).sp
  pub ip : ((w'.prim t).ycs 0).ip ≡ ((w.prim t).ycs 0).ip
  pub runs : has_next (w'.prim t).ycs 0 ≡ has_next (w.prim t).ycs 0

pub update_map_lem : (t : ℕ) (w : World) → Remapped t w (update_map t w)
update_map_lem t w = record {
  same = record {
    idx = λ s q. ap (λ (l : IdxList). l q) (lists s);
    runs = λ s q lo. ground (arith, update_next_map_ne (w.prim t) q lo);
    slot = λ j. refl;
    finished = λ j. refl;
    handle = λ j. refl;
  };
  idx_list = lists;
  flags = λ s. ground (arith, rest);
  sp = prim-put_prim (λ c. (c.ycs 0).sp) t (update_next_map (w.prim t)) w ∙ rest.0;
  ip = prim-put_prim (λ c. (c.ycs 0).ip) t (update_next_map (w.prim t)) w ∙ rest.1;
  runs = prim-put_prim (λ c. has_next c.ycs 0) t (update_next_map (w.prim t)) w ∙ rest.2;
}
  where
    rest :
        (((update_next_map (w.prim t)).ycs 0).sp ≡ ((w.prim t).ycs 0).sp)
        × (((update_next_map (w.prim t)).ycs 0).ip ≡ ((w.prim t).ycs 0).ip)
        × (has_next (update_next_map (w.prim t)).ycs 0 ≡ has_next (w.prim t).ycs 0)
        × ((update_next_map (w.prim t)).reallocatable ≡ (w.prim t).reallocatable)
        × ((update_next_map (w.prim t)).reallocated ≡ (w.prim t).reallocated)
        × ((update_next_map (w.prim t)).regs ≡ (w.prim t).regs)
    rest = update_next_map_rest (w.prim t)

    lists : (s : ℕ) → ((update_map t w).prim s).idx_list ≡ (w.prim s).idx_list
    lists s = ground (arith, idx_list-update_next_map (w.prim t))

-- What a thread with a running primary relies on when it enters the runtime.
pub record IsReady (L : Loader) (t : ℕ) (w : World) : Type 0 where
  pub hosting : IsHosting w
  pub linked : IsLinked L w
  pub donors : DonorsPacked w
  pub own : (w.prim t).reallocatable ≡ false
  pub running : has_next (w.prim t).ycs 0 ≡ true

-- What the thread has been given from world `v` to world `x`: as many scavengers as it wanted, unless
-- it hosts 128 then or no entry of the pool can be allocated any more, and its primary yields to the
-- first of its scavengers.
pub record Given (t : ℕ) (v x : World) : Type 0 where
  pub taken : ℕ
  pub count : hosted (x.prim t).idx_list ≡ hosted (v.prim t).idx_list + taken
  pub stops :
      Stops
        (need_more_scav v.max_scav_per_thread (v.prim t).idx_list)
        taken
        0
        max_active_crt_num
        (x.prim t).idx_list
        x.scav
  pub pointed : Pointed (x.prim t).ycs

-- The state that is left by the refill of a thread whose primary runs.
pub record Refilled (L : Loader) (t : ℕ) (w : World) (out : Outcome World) : Type 0 where
  pub after : World
  pub result : out ≡ ok after
  pub ready : IsReady L t after
  pub packed : (s : ℕ) → IsPacked (w.prim s).idx_list → IsPacked (after.prim s).idx_list
  pub finished : (j : ℕ) → (after.scav j).finished ≡ (w.scav j).finished
  pub sp : ((after.prim t).ycs 0).sp ≡ ((w.prim t).ycs 0).sp
  pub ip : ((after.prim t).ycs 0).ip ≡ ((w.prim t).ycs 0).ip
  pub given : Given t w after

pub refill_lem : (L : Loader) (t : ℕ) (w : World) → IsReady L t w → Refilled L t w (refill L t w)
unfolding refill
refill_lem L t w r =
    let a = allocate_scav_lem L t w r.hosting r.linked r.donors r.own in
    let m = update_map_lem t a.after in
    record {
      after = update_map t a.after;
      result = rw (r.running, a.result) refl;
      ready = record {
        hosting = Same-IsHosting a.gain.hosting m.same;
        linked = IsLinked-handle a.gain.linked m.same.handle;
        donors = λ s up.
            subst IsPacked (sym (m.idx_list s))
              (Gain-DonorsPacked a.gain r.donors s (sym (m.flags s) ∙ up));
        own = m.flags t ∙ a.gain.flags t ∙ r.own;
        running = m.runs ∙ a.gain.primary_runs r.running;
      };
      packed = λ s p. subst IsPacked (sym (m.idx_list s)) (a.gain.packed s p);
      finished = λ j. m.same.finished j ∙ a.gain.finished j;
      sp = m.sp ∙ a.gain.primary_sp;
      ip = m.ip ∙ a.gain.primary_ip;
      given = record {
        taken = a.taken;
        count = ap hosted (m.idx_list t) ∙ a.gain.count;
        stops =
            subst
              (λ l.
                Stops (need_more_scav w.max_scav_per_thread (w.prim t).idx_list) a.taken 0
                  max_active_crt_num l a.after.scav)
              (sym (m.idx_list t)) a.stops;
        pointed =
            subst (λ (c : PrimaryCtx). Pointed c.ycs)
              (sym (prim-put_prim (λ c. c) t (update_next_map (a.after.prim t)) a.after))
              (update_next_map-Pointed (a.after.prim t)
                (ground (arith, a.gain.primary_runs r.running)));
      };
    }

pub refill_running :
    (L : Loader) (t : ℕ) (w : World)
    → has_next (w.prim t).ycs 0 ≡ true
    → refill L t w ≡ (allocate_scav L t w >>= λ (cnt, w'). ok (update_map t w'))
unfolding refill
refill_running L t w e = rw e refl
