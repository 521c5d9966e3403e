-- ===== src/Schedule/Kept.antt =====
-- A return through the scheduler as a sequence of calls, for what every one of them leaves alone.
use mathlib.Core.Path.{subst}
use msh.Prelude.{
  ok_inj, ℕ, ◌/◌, ◌≡◌, inl, inr, ◌==◌, ltb, if◌then◌else◌, ℤ, to_short, to_size, ok, bind_ok,
  Bool-cases,
}
use msh.Memory.{max_crt_per_thread, sizeof_yield_ctx, World, Loader}
use msh.IdxList.{find_unfinished_crt}
use msh.NextMap.{has_next}
use msh.Finish.{finish_crt}
use msh.Pack.{pack_crts}
use msh.Allocate.{allocate_scav}
use msh.Schedule.{Switch, update_map, counted, refill, leave, sched_from, sched_next_crt}
use msh.Schedule.Calling.{switch_to_world, switch_cleanup_world}

-- A relation that every part of a return to thread `t` keeps.
pub record IsKept (L : Loader) (t : ℕ) (R : World → World → Type 0) : Type 0 where
  pub same : (w : World) → R w w
  pub chain : {w w' w'' : World} → R w w' → R w' w'' → R w w''
  pub count : (w : World) → R w (counted w)
  pub finish : (p : ℕ) (w : World) → R w (finish_crt t p w)
  pub map : (w : World) → R w (update_map t w)
  pub pack : (w w' : World) → pack_crts L t w ≡ ok w' → R w w'
  pub allocate : (r : ℕ) (w w' : World) → allocate_scav L t w ≡ ok (r, w') → R w w'
  pub jump : (f : ℕ → ℤ) (w : World) → R w (record w { cur_crt_pos = f })

module _ {L : Loader} {t : ℕ} {R : World → World → Type 0} (kept : IsKept L t R) where
  refill-kept : (w w' : World) → refill L t w ≡ ok w' → R w w'
  unfolding refill
  refill-kept w w' e = elim (Bool-cases (has_next (w.prim t).ycs 0)) [
    | inl runs ↦
        let ((cnt, v), given, rest) = bind_ok (allocate_scav L t w) _ w' (rw runs at e) in
        subst (R w) (ok_inj rest) (kept.chain (kept.allocate cnt w v given) (kept.map v))
    | inr over ↦ subst (R w) (ok_inj (rw over at e)) (kept.same w)
  ]

  leave-kept : (n : ℤ) (w w' : World) (to : Switch) → leave L t n w ≡ ok (to, w') → R w w'
  unfolding leave
  leave-kept n w w' to e =
      let (v, refilled, rest) = bind_ok (refill L t w) _ (to, w') e in
      elim (Bool-cases (has_next (v.prim t).ycs 0)) [
        | inl runs ↦
            let (f, same) = switch_to_world t n v w' to (rw runs at rest) in
            subst (R w) same (kept.chain (refill-kept w v refilled) (kept.jump f v))
        | inr over ↦
            let (f, same) =
              switch_cleanup_world t (find_unfinished_crt (v.prim t).idx_list) v w' to
                (rw over at rest) in
            subst (R w) same (kept.chain (refill-kept w v refilled) (kept.jump f v))
      ]

  start-kept : (p : ℕ) (w : World) → R w (if p == 0 then w else counted w)
  start-kept p w = elim (Bool-cases (p == 0)) [
    | inl first ↦ rw first (kept.same w)
    | inr later ↦ rw later (kept.count w)
  ]

  sched_from-kept : (p : ℕ) (w w' : World) (to : Switch) → sched_from L t p w ≡ ok (to, w') → R w w'
  unfolding sched_from
  sched_from-kept p w w' to e = elim (Bool-cases (ltb max_crt_per_thread p)) [
    | inl outside ↦ cc (rw outside at e)
    | inr inside ↦
        let w0 = if p == 0 then w else counted w in
        let link = to_short (to_size ((w.prim t).ycs p).normal_next / sizeof_yield_ctx) in
        let (v, packed, left) =
          bind_ok (pack_crts L t (update_map t (finish_crt t p w0))) _ (to, w') (rw inside at e) in
        kept.chain (start-kept p w) (
          kept.chain (kept.finish p w0) (
            kept.chain (kept.map (finish_crt t p w0)) (
              kept.chain (kept.pack (update_map t (finish_crt t p w0)) v packed)
                (leave-kept link v w' to left))))
  ]

  pub sched_next_crt-kept :
      (ret : ℕ) (w w' : World) (to : Switch) → sched_next_crt L t ret w ≡ ok (to, w') → R w w'
  unfolding sched_next_crt
  sched_next_crt-kept ret = sched_from-kept (ret / sizeof_yield_ctx)
