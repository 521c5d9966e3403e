-- ===== src/Cleanup/Kept.antt =====
-- A cleanup until it leaves to a coroutine or returns, for what every part of it leaves alone.
use mathlib.Core.Path.{subst}
use msh.Prelude.{ℕ, ◌≡◌, inl, inr, ◌∙◌, sym, Bool, true, false, ◌==◌, ok, bind_ok, Bool-cases}
use msh.Memory.{World, Loader}
use msh.IdxList.{find_unfinished_crt}
use msh.Schedule.{Switch, sched_next_crt}
use msh.Cleanup.{Control, running, world_of, link_to_self, after_setjmp, msh_cleanup}
use msh.Cleanup.Done.{primary_reset}
use msh.Cleanup.Tables.{returned_world, running_world, after_setjmp_reset, after_setjmp_next}

-- A relation that every part of the cleanup of thread `t` keeps.
pub record IsKept (L : Loader) (t : ℕ) (R : World → World → Type 0) : Type 0 where
  pub same : (w : World) → R w w
  pub chain : {w w' w'' : World} → R w w' → R w' w'' → R w w''
  pub link : (w : World) → R w (link_to_self t w)
  pub reset : (w : World) → R w (primary_reset t w)
  pub next : (w w' : World) (to : Switch) → sched_next_crt L t 0 w ≡ ok (to, w') → R w w'

module _ {L : Loader} {t : ℕ} {R : World → World → Type 0} (kept : IsKept L t R) where
  pub after_setjmp-kept : (w : World) (c : Control) → after_setjmp L t w ≡ ok c → R w (world_of c)
  after_setjmp-kept w c e = elim (Bool-cases (find_unfinished_crt (w.prim t).idx_list == 0)) [
    | inl done ↦
        subst (R w)
          (returned_world L t (primary_reset t w) c (sym (after_setjmp_reset L t w done) ∙ e))
          (kept.reset w)
    | inr more ↦
        let ((to, w1), called, goes) =
          bind_ok (sched_next_crt L t 0 w) (λ (to, w1). ok (running to w1)) c
            (sym (after_setjmp_next L t w more) ∙ e) in
        subst (R w) (running_world L t to w1 c goes) (kept.next w w1 to called)
  ]

  pub msh_cleanup-kept :
      (skip : Bool) (w : World) (c : Control) → msh_cleanup L t skip w ≡ ok c → R w (world_of c)
  unfolding msh_cleanup
  msh_cleanup-kept true w c e = subst (R w) (returned_world L t w c e) (kept.same w)
  msh_cleanup-kept false w c e = kept.chain (kept.link w) (after_setjmp-kept (link_to_self t w) c e)
