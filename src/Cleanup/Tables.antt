-- ===== src/Cleanup/Tables.antt =====
-- The cleanup and the tables, whatever numbers the coroutines return.
use mathlib.Core.Path.{subst}
use msh.Prelude.{
  ok_inj, ℕ, ◌≡◌, inl, inr, refl, ap, ◌∙◌, sym, Bool, true, false, ◌==◌, ok, ◌>>=◌, bind_ok,
  Bool-cases, arith,
}
use msh.Memory.{World, Loader}
use msh.IdxList.{find_unfinished_crt}
use msh.Hosting.Keeps.{Keeps, Keeps-trans, Keeps-Same}
use msh.Hosting.Steps.{Same-refl}
use msh.Schedule.{Switch, sched_next_crt}
use msh.Schedule.Tables.{sched_next_crt-Returned}
use msh.Schedule.Calling.{IsCalling, Keeps-IsCalling}
use msh.Cleanup.{Control, returned, running, world_of, link_to_self, after_setjmp, msh_cleanup}
use msh.Cleanup.Prepare.{link_to_self-Same}
use msh.Cleanup.Done.{primary_reset, reset-Same}

module _ (L : Loader) (t : ℕ) where
  pub returned_world : (w : World) (c : Control) → ok (returned w) ≡ ok c → w ≡ world_of c
  returned_world w c e = ap (λ (d : Control). world_of d) (ok_inj e)

  pub running_world :
      (s : Switch) (w : World) (c : Control) → ok (running s w) ≡ ok c → w ≡ world_of c
  running_world s w c e = ap (λ (d : Control). world_of d) (ok_inj e)

  pub after_setjmp_reset :
      (w : World)
      → (find_unfinished_crt (w.prim t).idx_list == 0) ≡ true
      → after_setjmp L t w ≡ ok (returned (primary_reset t w))
  unfolding after_setjmp
  after_setjmp_reset w e = rw (e, after_setjmp) refl

  pub after_setjmp_next :
      (w : World)
      → (find_unfinished_crt (w.prim t).idx_list == 0) ≡ false
      → after_setjmp L t w ≡ (sched_next_crt L t 0 w >>= λ (s, w1). ok (running s w1))
  unfolding after_setjmp
  after_setjmp_next w e = rw (e, after_setjmp) refl

  pub link_to_self-Keeps : (w : World) → IsCalling L t w → Keeps L t w (link_to_self t w)
  unfolding link_to_self
  link_to_self-Keeps w c = Keeps-Same c.hosting c.linked (link_to_self-Same t w) (λ s. ground arith)

  -- From `setjmp` on, wherever control goes, the tables stay consistent.
  pub after_setjmp-Keeps :
      (w : World) (c : Control)
      → IsCalling L t w
      → after_setjmp L t w ≡ ok c
      → Keeps L t w (world_of c)
  unfolding after_setjmp
  after_setjmp-Keeps w c calling e =
      elim (Bool-cases (find_unfinished_crt (w.prim t).idx_list == 0)) [
        | inl done ↦
            subst (Keeps L t w)
              (returned_world (primary_reset t w) c (sym (after_setjmp_reset w done) ∙ e))
              (Keeps-Same calling.hosting calling.linked (reset-Same t w) (λ s. ground arith))
        | inr more ↦
            let ((s, w1), called, goes) =
              bind_ok (sched_next_crt L t 0 w) _ c (sym (after_setjmp_next w more) ∙ e) in
            subst (Keeps L t w) (running_world s w1 c goes)
              ((sched_next_crt-Returned L t 0 w w1 s calling called).keeps)
      ]

  -- `msh_cleanup`, when it has returned or left to a coroutine, has kept the tables consistent.
  pub msh_cleanup-Keeps :
      (skip : Bool) (w : World) (c : Control)
      → IsCalling L t w
      → msh_cleanup L t skip w ≡ ok c
      → Keeps L t w (world_of c)
  unfolding msh_cleanup
  msh_cleanup-Keeps true w c calling e =
      subst (Keeps L t w) (returned_world w c e)
        (Keeps-Same calling.hosting calling.linked (Same-refl w) (λ s. refl))
  msh_cleanup-Keeps false w c calling e =
      let linked = link_to_self-Keeps w calling in
      Keeps-trans linked
        (after_setjmp-Keeps (link_to_self t w) c (Keeps-IsCalling calling linked) e)
