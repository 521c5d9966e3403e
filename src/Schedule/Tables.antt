-- ===== src/Schedule/Tables.antt =====
-- The scheduler and the tables, whatever number a coroutine returns.
use mathlib.Core.Path.{subst}
use msh.Prelude.{
  ok_inj, ℕ, ◌/◌, ◌<◌, ◌≡◌, inl, inr, refl, ap, ◌∙◌, sym, true, ◌==◌, ltb, ℤ, Outcome, ok, fault,
  ◌>>=◌, bind_ok, ==→eq, Bool-cases, arith,
}
use msh.Memory.{max_crt_per_thread, sizeof_yield_ctx, World, Loader}
use msh.IdxList.{find_unfinished_crt}
use msh.IdxList.Ends.{IsPacked}
use msh.NextMap.{has_next}
use msh.Hosting.{IsHosting}
use msh.Hosting.Steps.{Same, Same-refl}
use msh.Hosting.Gain.{IsPacked-congr}
use msh.Hosting.Keeps.{Keeps, Keeps-trans, Keeps-Same, Keeps-Gain, Same-cur_crt_pos}
use msh.Symbols.Frame.{IsLinked}
use msh.Pack.{pack_crts}
use msh.Pack.Loop.{pack_crts_lem, pack_crts_finished}
use msh.Schedule.{Switch, update_map, refill, leave, sched_from, sched_next_crt}
use msh.Allocate.Whole.{allocate_scav_lem}
use msh.Schedule.Running.{update_map_lem, refill_running}
use msh.Schedule.Leaving.{taken_out, sched_from_step, leave_running}
use msh.Schedule.Draining.{primary_over, primary_over_mark, leave_finished, sched_from_primary}
use msh.Schedule.Calling.{
  switch_to_world, switch_cleanup_world, taken_out-Keeps, IsCalling, Keeps-IsCalling, Returned,
}

jumped :
    {L : Loader} {t : ℕ} {w x w' : World} (f : ℕ → ℤ)
    → record x { cur_crt_pos = f } ≡ w'
    → Returned L t w x
    → Returned L t w w'
jumped {L} {t} {w} {x} {w'} f e r = subst (Returned L t w) e (record {
  keeps =
      Keeps-trans r.keeps
        (Keeps-Same r.keeps.hosting r.keeps.linked (Same-cur_crt_pos x f) (λ s. refl));
  packed = r.packed;
})

-- The refill of a thread whose primary runs.
pub refill-Keeps :
    (L : Loader) (t : ℕ) (v : World)
    → IsCalling L t v
    → has_next (v.prim t).ycs 0 ≡ true
    → (x : World) × (refill L t v ≡ ok x)
      × Keeps L t v x
      × (has_next (x.prim t).ycs 0 ≡ true)
      × (IsPacked (v.prim t).idx_list → IsPacked (x.prim t).idx_list)
refill-Keeps L t v c running =
    let a = allocate_scav_lem L t v c.hosting c.linked c.donors c.own in
    let m = update_map_lem t a.after in
    (
      update_map t a.after,
      refill_running L t v running
          ∙ ap (λ (o : Outcome (ℕ × World)). o >>= λ (cnt, x). ok (update_map t x)) a.result,
      Keeps-trans (Keeps-Gain a.gain) (Keeps-Same a.gain.hosting a.gain.linked m.same m.flags),
      m.runs ∙ a.gain.primary_runs running,
      λ p. subst IsPacked (sym (m.idx_list t)) (a.gain.packed t p),
    )

module _ (L : Loader) (t : ℕ) where
  leave-Returned :
      (n : ℤ) (v w' : World) (s : Switch)
      → IsCalling L t v
      → (has_next (v.prim t).ycs 0 ≡ true → IsPacked (v.prim t).idx_list)
      → leave L t n v ≡ ok (s, w')
      → Returned L t v w'
  leave-Returned n v w' s c packed e = elim (Bool-cases (has_next (v.prim t).ycs 0)) [
    | inl running ↦
        let (x, refilled, keeps, still, kept) = refill-Keeps L t v c running in
        let (f, same) =
          switch_to_world t n x w' s (sym (leave_running L t n v x refilled still) ∙ e) in
        jumped f same (record { keeps = keeps; packed = λ r. kept (packed running) })
    | inr over ↦
        let (f, same) =
          switch_cleanup_world t (find_unfinished_crt (v.prim t).idx_list) v w' s
            (sym (leave_finished L t n v over) ∙ e) in
        jumped f same
          (record { keeps = Keeps-Same c.hosting c.linked same_v (λ r. refl); packed = packed })
  ]
    where
      same_v : Same v v
      same_v = Same-refl v

  -- The list is packed if the primary runs.
  pub pack-Returned :
      (v w' : World) → IsHosting v → IsLinked L v → pack_crts L t v ≡ ok w' → Returned L t v w'
  pack-Returned v w' h linked e = elim (Bool-cases (has_next (v.prim t).ycs 0)) [
    | inl running ↦
        let (x, called, k, packed) = pack_crts_lem L t v h linked running in
        subst (Returned L t v) (ok_inj (sym called ∙ e)) (record {
          keeps = record {
            hosting = k.hosting;
            linked = k.linked;
            flags = k.flags;
            packed = λ s off p.
                IsPacked-congr (v.prim s).idx_list (x.prim s).idx_list (λ q. k.others s q off) p;
            finished = λ j d. k.finished j ∙ d;
          };
          packed = λ r. packed;
        })
    | inr over ↦
        subst (Returned L t v) (ok_inj (sym (pack_crts_finished L t v over) ∙ e))
          (record { keeps = Keeps-Same h linked (Same-refl v) (λ r. refl); packed = λ r. cc })
  ]

  primary_over-Keeps : (w : World) → IsHosting w → IsLinked L w → Keeps L t w (primary_over t w)
  primary_over-Keeps w h linked =
      Keeps-Same h linked
        (record {
          idx = λ s q. ground arith;
          runs = λ s q lo. ground arith;
          slot = λ j. refl;
          finished = λ j. refl;
          handle = λ j. refl;
        })
        (λ s. ground arith)

  sched_from_outside : (p : ℕ) (w : World) → max_crt_per_thread < p → sched_from L t p w ≡ fault
  unfolding sched_from
  sched_from_outside p w h =
      let out : ltb max_crt_per_thread p ≡ true = ground arith in rw (sched_from, out) refl

  sched_from-Returned :
      (p : ℕ) (w w' : World) (s : Switch)
      → IsCalling L t w
      → sched_from L t p w ≡ ok (s, w')
      → Returned L t w w'
  sched_from-Returned p w w' s c e = elim (Bool-cases (ltb max_crt_per_thread p)) [
    | inl outside ↦ cc (sched_from_outside p w (ground arith))
    | inr inside ↦ elim (Bool-cases (p == 0)) [
      | inl first ↦
          let (f, same) =
            switch_cleanup_world t (find_unfinished_crt (w.prim t).idx_list) (primary_over t w) w' s
              (sym (sched_from_primary L t w (c.hosting.reserved t))
                ∙ ap (λ q. sched_from L t q w) (sym (==→eq p 0 first))
                ∙ e) in
          jumped f same (record {
            keeps = primary_over-Keeps w c.hosting c.linked;
            packed = λ r. cc (primary_over_mark t w);
          })
      | inr later ↦
          let k = taken_out-Keeps L t p w (ground arith) (ground arith) c.hosting c.linked in
          let (v, packed, left) =
            bind_ok (pack_crts L t (taken_out t p w)) _ (s, w')
              (sym (sched_from_step L t p w (ground arith) (ground arith)) ∙ e) in
          let r = pack-Returned (taken_out t p w) v k.hosting k.linked packed in
          let back =
            leave-Returned _ v w' s (Keeps-IsCalling (Keeps-IsCalling c k) r.keeps) r.packed left in
          record { keeps = Keeps-trans (Keeps-trans k r.keeps) back.keeps; packed = back.packed }
    ]
  ]

  -- Whatever number comes back to the scheduler, if the scheduler jumps at all, it has kept the
  -- tables consistent, the flags, the lists of the other threads and the finished scavengers, and
  -- has left no hole in the list of a thread whose primary goes on.
  pub sched_next_crt-Returned :
      (ret : ℕ) (w w' : World) (s : Switch)
      → IsCalling L t w
      → sched_next_crt L t ret w ≡ ok (s, w')
      → Returned L t w w'
  unfolding sched_next_crt
  sched_next_crt-Returned ret w w' s c e = sched_from-Returned (ret / sizeof_yield_ctx) w w' s c e
