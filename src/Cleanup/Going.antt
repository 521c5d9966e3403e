-- ===== src/Cleanup/Going.antt =====
-- The cleanup goes on.
use msh.Prelude.{
  ℕ, ◌≡◌, inl, inr, refl, ap, ◌∙◌, Bool, true, false, ◌==◌, Outcome, ok, ◌>>=◌, Bool-cases, arith,
}
use msh.Memory.{World, Loader}
use msh.IdxList.{find_unfinished_crt}
use msh.Schedule.{Switch, sched_next_crt}
use msh.Schedule.Calling.{IsCalling, Keeps-IsCalling}
use msh.Schedule.Going.{Jumps, sched_from-Jumps}
use msh.Cleanup.{Control, running, link_to_self, after_setjmp, msh_cleanup}
use msh.Cleanup.Tables.{after_setjmp_reset, after_setjmp_next, link_to_self-Keeps}

module _ (L : Loader) (t : ℕ) where
  sched_primary-Jumps :
      (w : World)
      → IsCalling L t w
      → (find_unfinished_crt (w.prim t).idx_list == 0) ≡ false
      → Jumps t w (sched_next_crt L t 0 w)
  unfolding sched_next_crt
  sched_primary-Jumps w c more =
      sched_from-Jumps L t 0 w c (omega arith) (λ runs lo. absurd (omega arith))
        (λ e none_. absurd (ground arith))

  -- From `setjmp` on, control comes to the end or to a coroutine.
  pub after_setjmp_goes :
      (w : World) → IsCalling L t w → (c : Control) × (after_setjmp L t w ≡ ok c)
  after_setjmp_goes w calling = elim (Bool-cases (find_unfinished_crt (w.prim t).idx_list == 0)) [
    | inl done ↦ (_, after_setjmp_reset L t w done)
    | inr more ↦
        let j = sched_primary-Jumps w calling more in
        (
          running j.to j.after,
          after_setjmp_next L t w more
              ∙ ap (λ (o : Outcome (Switch × World)). o >>= λ (s, w1). ok (running s w1)) j.result,
        )
  ]

  pub msh_cleanup_goes :
      (skip : Bool) (w : World) → IsCalling L t w → (c : Control) × (msh_cleanup L t skip w ≡ ok c)
  unfolding msh_cleanup
  msh_cleanup_goes true w calling = (_, refl)
  msh_cleanup_goes false w calling =
      after_setjmp_goes (link_to_self t w)
        (Keeps-IsCalling calling (link_to_self-Keeps L t w calling))
