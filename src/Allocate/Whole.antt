-- ===== src/Allocate/Whole.antt =====
-- `allocate_scav` as a whole.
use mathlib.Core.Path.{subst}
use msh.Prelude.{
  ℕ, ◌+◌, ◌<◌, ◌≡◌, inl, inr, refl, ap, ◌∙◌, sym, not, Bool, false, ◌==◌, if◌then◌else◌,
  is_minus_one, Outcome, ok, Bool-cases, arith,
}
use msh.Memory.{
  max_thread_num, max_active_crt_num, YieldCtx, World, put_prim, prim-put_prim, Loader,
}
use msh.IdxList.{hosted, need_more_scav}
use msh.IdxList.Ends.{IsPacked}
use msh.NextMap.{set_special_next}
use msh.NextMap.Ring.{set_special_next_primary, set_special_next_flag, idx_list-set_special_next}
use msh.Hosting.{IsHosting}
use msh.Hosting.Steps.{Same-IsHosting}
use msh.Hosting.Gain.{Gain, Gain-refl, Gain-trans}
use msh.Symbols.Frame.{IsLinked, IsLinked-handle}
use msh.Pack.Loop.{set_special_next-Same}
use msh.Allocate.{from_threads, from_pool, allocate_demanded, call_init_for_new_scav, allocate_scav}
use msh.Allocate.Donors.{DonorsPacked, from_threads_lem}
use msh.Allocate.Pool.{Stops, met, Stops-Gain, from_pool_lem}
use msh.Allocate.Inits.{call_init_lem, InitsOnly-Gain}

-- The outcome of `_allocate_scav`. Scavengers of other threads are demanded in full from each of
-- them, so that the demand can be exceeded, but not doubled.
pub record Demanded (L : Loader) (t demands : ℕ) (w : World) (out : Outcome (ℕ × World))
    : Type 0 where
  pub taken : ℕ
  pub after : World
  pub result : out ≡ ok (taken, after)
  pub gain : Gain L t taken w after
  pub bound : taken < demands + demands
  pub stops : Stops demands taken 0 max_active_crt_num (after.prim t).idx_list after.scav

demanded_step :
    (L : Loader) (t demands ret : ℕ) (w w1 : World) (done : Bool)
    → from_threads L t demands max_thread_num 0 0 w ≡ ok (done, ret, w1)
    → allocate_demanded L t demands w
      ≡ (if done then ok (ret, w1) else from_pool L t demands max_active_crt_num 0 ret w1)
unfolding allocate_demanded
demanded_step L t demands ret w w1 done e = rw (allocate_demanded, e) (ground arith)

-- For a thread that hosts consistently, with its own flag down, every object linked and the blocked
-- threads packed, a demand is met by a call that returns and reports what the thread has gained,
-- which is less than twice the demand.
pub allocate_demanded_lem :
    (L : Loader) (t demands : ℕ) (w : World)
    → IsHosting w
    → IsLinked L w
    → DonorsPacked w
    → (w.prim t).reallocatable ≡ false
    → 0 < demands
    → Demanded L t demands w (allocate_demanded L t demands w)
allocate_demanded_lem L t demands w h linked packed own some_ =
    let r = from_threads_lem L t demands max_thread_num 0 0 w h linked packed own some_ in
    let step = demanded_step L t demands (0 + r.taken) w r.after r.done r.result in
    elim (Bool-cases r.done) [
      | inl done ↦ record {
        taken = r.taken;
        after = r.after;
        result = step ∙ rw done (ap (λ k. ok (k, r.after)) (omega arith));
        gain = r.gain;
        bound = omega (arith, r.bound);
        stops = met (omega (arith, r.enough done));
      }
      | inr more ↦
          let q =
            from_pool_lem L t demands max_active_crt_num 0 (0 + r.taken) r.after r.gain.hosting
              r.gain.linked (r.wanting more) in
          record {
            taken = r.taken + q.taken;
            after = q.after;
            result = step ∙ rw more (q.result ∙ ap (λ k. ok (k, q.after)) (omega arith));
            gain = Gain-trans r.gain q.gain refl;
            bound = omega (arith, q.bound);
            stops =
                subst
                  (λ k. Stops demands k 0 max_active_crt_num (q.after.prim t).idx_list q.after.scav)
                  (omega arith) q.stops;
          }
    ]

special-Gain :
    (L : Loader) (t : ℕ) (w : World)
    → IsHosting w
    → IsLinked L w
    → Gain L t 0 w (put_prim t (set_special_next (w.prim t)) w)
special-Gain L t w h linked = record {
  hosting = Same-IsHosting h (set_special_next-Same t w);
  linked = IsLinked-handle linked (λ j. refl);
  count = ap hosted (lists t) ∙ omega arith;
  finished = λ j. refl;
  handle = λ j. refl;
  owned = λ j x. x;
  primary_sp = ap (λ (y : YieldCtx). y.sp) primary;
  primary_ip = ap (λ (y : YieldCtx). y.ip) primary;
  primary_runs = λ r. ap (λ (y : YieldCtx). not (is_minus_one y.normal_next)) primary ∙ r;
  packed = λ s p. subst IsPacked (sym (lists s)) p;
  flags = λ s. ground (arith, flag);
  max = refl;
}
  where
    lists :
        (s : ℕ)
        → ((put_prim t (set_special_next (w.prim t)) w).prim s).idx_list ≡ (w.prim s).idx_list
    lists s = ground (arith, idx_list-set_special_next (w.prim t))

    primary : ((put_prim t (set_special_next (w.prim t)) w).prim t).ycs 0 ≡ (w.prim t).ycs 0
    primary =
        prim-put_prim (λ c. c.ycs 0) t (set_special_next (w.prim t)) w
        ∙ set_special_next_primary (w.prim t)

    flag : (set_special_next (w.prim t)).reallocatable ≡ (w.prim t).reallocatable
    flag = set_special_next_flag (w.prim t)

-- The outcome of `allocate_scav`.
pub record Allocated (L : Loader) (t : ℕ) (w : World) (out : Outcome (ℕ × World)) : Type 0 where
  pub taken : ℕ
  pub after : World
  pub result : out ≡ ok (taken, after)
  pub gain : Gain L t taken w after
  pub stops :
      Stops
        (need_more_scav w.max_scav_per_thread (w.prim t).idx_list)
        taken
        0
        max_active_crt_num
        (after.prim t).idx_list
        after.scav

-- In consistent tables with every object linked and the blocked threads packed, allocation for a
-- thread whose own flag is down returns. It gives the thread as many scavengers as it says, and as
-- many as it wants unless the thread hosts 128 then or no entry of the pool can be allocated any
-- more. It keeps who hosts whom consistent, finishes none, keeps each entry's object, and what a
-- thread hosts stays hosted; the stack and instruction pointers of the primary and the flags stay, a primary that
-- runs goes on to, and every list that was packed is packed afterwards.
pub allocate_scav_lem :
    (L : Loader) (t : ℕ) (w : World)
    → IsHosting w
    → IsLinked L w
    → DonorsPacked w
    → (w.prim t).reallocatable ≡ false
    → Allocated L t w (allocate_scav L t w)
unfolding allocate_scav
allocate_scav_lem L t w h linked packed own = elim (Bool-cases (counts == 0)) [
  | inl none_ ↦ record {
    taken = 0;
    after = w;
    result = rw none_ refl;
    gain = Gain-refl h linked;
    stops = met (ground arith);
  }
  | inr wanting ↦
      let d = allocate_demanded_lem L t counts w h linked packed own (ground arith) in
      let w2 = call_init_for_new_scav L t d.after in
      let g2 : Gain L t 0 d.after w2 =
        InitsOnly-Gain t d.gain.hosting d.gain.linked (call_init_lem L t d.after).0 in
      let rest = Gain-trans g2 (special-Gain L t w2 g2.hosting g2.linked) refl in
      record {
        taken = d.taken;
        after = put_prim t (set_special_next (w2.prim t)) w2;
        result = rw (wanting, d.result) refl;
        gain = Gain-trans d.gain rest (omega arith);
        stops = Stops-Gain rest d.stops;
      }
]
  where
    counts : ℕ
    counts = need_more_scav w.max_scav_per_thread (w.prim t).idx_list
