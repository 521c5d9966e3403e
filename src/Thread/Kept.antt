-- ===== src/Thread/Kept.antt =====
-- The calls of a thread as sequences of writes, for what every one of them leaves alone.
use mathlib.Core.Path.{subst}
use msh.Prelude.{
  ok_inj, ok_second, ok_some, ℕ, ◌≡◌, inl, inr, false, ltb, some, ℤ, ok, ◌>>=◌, bind_ok, Bool-cases,
}
use msh.Memory.{max_thread_num, World, Loader}
use msh.Allocate.{set_flag, allocate_scav}
use msh.Schedule.{update_map}
use msh.Thread.{init_primary_ctx, at_primary, clear_reallocated, alloc_ctx, exit_blockable_call}

-- A relation that every write of the calls of thread `t` keeps.
pub record IsKept (L : Loader) (t : ℕ) (R : World → World → Type 0) : Type 0 where
  pub chain : {w w' w'' : World} → R w w' → R w' w'' → R w w''
  pub start : (w : World) → R w (at_primary t w)
  pub allocate : (r : ℕ) (w w' : World) → allocate_scav L t w ≡ ok (r, w') → R w w'
  pub init : (n : ℕ) (w : World) → R w (init_primary_ctx t n w)
  pub lower : (w : World) → R w (set_flag t false w)
  pub map : (w : World) → R w (update_map t w)
  pub clear : (w : World) → R w (clear_reallocated t w)

module _ {L : Loader} {t : ℕ} {R : World → World → Type 0} (kept : IsKept L t R) where
  pub alloc_ctx-kept : (r : ℤ) (w w' : World) → alloc_ctx L t w ≡ ok (r, w') → R w w'
  unfolding alloc_ctx
  alloc_ctx-kept r w w' e = elim (Bool-cases (ltb t max_thread_num)) [
    | inr out ↦ subst (R w) (ok_second (rw out at e)) (kept.start w)
    | inl in_ ↦
        let ((cnt, w1), given, rest) =
          bind_ok (allocate_scav L t (at_primary t w)) _ (r, w') (rw in_ at e) in
        subst (R w) (ok_second rest) (
          kept.chain (kept.start w)
            (kept.chain (kept.allocate cnt (at_primary t w) w1 given) (kept.init cnt w1)))
  ]

  pub exit_blockable_call-kept : (w w' : World) → exit_blockable_call L t w ≡ ok (some w') → R w w'
  unfolding exit_blockable_call
  exit_blockable_call-kept w w' e = elim (Bool-cases (w.prim t).reallocatable) [
    | inr held ↦ cc (rw (exit_blockable_call, held) at e)
    | inl up ↦ elim (Bool-cases (w1.prim t).reallocated) [
      | inr kept_ ↦ subst (R w) (ok_some (rw (exit_blockable_call, up, kept_) at e)) (kept.lower w)
      | inl taken ↦
          let (w3, again, rest) =
            bind_ok (allocate_scav L t w1 >>= λ (cnt, w2). ok (update_map t w2)) _ (some w')
              (rw (exit_blockable_call, up, taken) at e) in
          let ((cnt, w2), given, updated) = bind_ok (allocate_scav L t w1) _ w3 again in
          subst (R w) (ok_some rest) (
            kept.chain (kept.lower w) (
              kept.chain (kept.allocate cnt w1 w2 given)
                (kept.chain (subst (R w2) (ok_inj updated) (kept.map w2)) (kept.clear w3))))
    ]
  ]
    where
      w1 : World
      w1 = set_flag t false w
