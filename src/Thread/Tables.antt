-- ===== src/Thread/Tables.antt =====
-- The calls of a thread and the tables.
use mathlib.Core.Path.{subst}
use msh.Prelude.{
  ok_second, ok_some, ℕ, ◌≡◌, inl, inr, refl, ap, ◌∙◌, sym, false, ◌==◌, ltb, some, none, ℤ,
  Outcome, ok, ◌>>=◌, Bool-cases, arith,
}
use msh.Memory.{max_thread_num, World, Loader}
use msh.IdxList.Ends.{IsPacked}
use msh.Hosting.{IsHosting}
use msh.Hosting.Steps.{Same-refl, Same-IsHosting}
use msh.Hosting.Keeps.{Keeps, Keeps-trans, Keeps-Same, Keeps-Gain}
use msh.Symbols.Frame.{IsLinked, IsLinked-handle}
use msh.Allocate.{set_flag}
use msh.Allocate.Donors.{DonorsPacked, set_flag-Same, set_flag_idx}
use msh.Allocate.Whole.{allocate_scav_lem}
use msh.Schedule.{update_map}
use msh.Schedule.Running.{update_map_lem}
use msh.Schedule.Calling.{IsCalling}
use msh.Thread.{init_primary_ctx, at_primary, alloc_ctx, exit_blockable_call}
use msh.Thread.Start.{
  at_primary-Same, init_primary_ctx-Same, init_primary_ctx_list, alloc_ctx_step, alloc_ctx_refused,
}
use msh.Thread.Blocking.{
  exit_kept, exit_taken, exit_blockable_call_held, cleared-Same, cleared_list, cleared_flag,
  flag_here, flag_there,
}

-- What a call of thread `t` leaves; a list without holes has none afterwards.
pub record Called (L : Loader) (t : ℕ) (w w' : World) : Type 0 where
  pub keeps : Keeps L t w w'
  pub packed : IsPacked (w.prim t).idx_list → IsPacked (w'.prim t).idx_list

module _ (L : Loader) (t : ℕ) where
  init_primary_ctx_flag :
      (n s : ℕ) (w : World)
      → (w.prim t).reallocatable ≡ false
      → ((init_primary_ctx t n w).prim s).reallocatable ≡ (w.prim s).reallocatable
  unfolding init_primary_ctx
  init_primary_ctx_flag n s w own = ground arith

  -- `msh_alloc_ctx`, whether it takes the thread or not, keeps the tables consistent.
  pub alloc_ctx-Called :
      (r : ℤ) (w w' : World) → IsCalling L t w → alloc_ctx L t w ≡ ok (r, w') → Called L t w w'
  alloc_ctx-Called r w w' c e = elim (Bool-cases (ltb t max_thread_num)) [
    | inl in_ ↦
        let a = allocate_scav_lem L t (at_primary t w) start.hosting start.linked c.donors c.own in
        let same = init_primary_ctx-Same t a.taken a.after in
        let gained : Keeps L t w a.after = Keeps-trans start (Keeps-Gain a.gain) in
        subst (Called L t w)
          (ok_second (sym (alloc_ctx_step L t a.taken w a.after (ground arith) a.result) ∙ e))
          (record {
            keeps = Keeps-trans gained (
                Keeps-Same gained.hosting gained.linked same
                  (λ s. init_primary_ctx_flag a.taken s a.after (gained.flags t ∙ c.own)));
            packed = λ p.
                subst IsPacked (sym (init_primary_ctx_list t a.taken t a.after))
                  (a.gain.packed t p);
          })
    | inr out ↦
        subst (Called L t w) (ok_second (sym (alloc_ctx_refused L t w (ground arith)) ∙ e))
          (record { keeps = start; packed = λ p. p })
  ]
    where
      start : Keeps L t w (at_primary t w)
      start = Keeps-Same c.hosting c.linked (at_primary-Same t w) (λ s. refl)

  -- The tables once the flag of a blocked thread is down again.
  pub lowered-IsCalling :
      (w : World) → IsHosting w → IsLinked L w → DonorsPacked w → IsCalling L t (set_flag t false w)
  lowered-IsCalling w h linked donors = record {
    hosting = Same-IsHosting h (set_flag-Same t false w);
    linked = IsLinked-handle linked (λ j. refl);
    donors = λ s up. subst IsPacked (sym (set_flag_idx t false w s)) (elim (Bool-cases (t == s)) [
      | inl here ↦ absurd (ground arith)
      | inr there ↦ donors s (sym (flag_there t s false w there) ∙ up)
    ]);
    own = flag_here t false w;
  }

  -- `msh_exit_blockable_call`, when it has got the flag, keeps the tables consistent.
  pub exit_blockable_call-Called :
      (w w' : World)
      → IsCalling L t (set_flag t false w)
      → exit_blockable_call L t w ≡ ok (some w')
      → Called L t (set_flag t false w) w'
  exit_blockable_call-Called w w' c e = elim (Bool-cases (w.prim t).reallocatable) [
    | inr held ↦ absurd (never (sym (exit_blockable_call_held L t w held) ∙ e))
    | inl up ↦ elim (Bool-cases (w1.prim t).reallocated) [
      | inr kept ↦ subst (Called L t w1) (ok_some (sym (exit_kept L t w up kept) ∙ e)) (record {
        keeps = Keeps-Same c.hosting c.linked (Same-refl w1) (λ s. refl);
        packed = λ p. p;
      })
      | inl taken ↦
          let a = allocate_scav_lem L t w1 c.hosting c.linked c.donors c.own in
          let m = update_map_lem t a.after in
          let again : Keeps L t w1 (update_map t a.after) =
            Keeps-trans (Keeps-Gain a.gain)
              (Keeps-Same a.gain.hosting a.gain.linked m.same m.flags) in
          let v = update_map t a.after in
          subst (Called L t w1)
            (ok_some (
              sym (
                exit_taken L t w v up taken (
                  ap (λ (o : Outcome (ℕ × World)). o >>= λ (cnt, x). ok (update_map t x)) a.result))
              ∙ e))
            (record {
              keeps = Keeps-trans again (
                  Keeps-Same again.hosting again.linked (cleared-Same t v)
                    (λ s. cleared_flag t s v));
              packed =
                  λ p. subst IsPacked (sym (cleared_list t t v ∙ m.idx_list t)) (a.gain.packed t p);
            })
    ]
  ]
    where
      w1 : World
      w1 = set_flag t false w

      never : ok none ≡ ok (some w') → ⊥
      never d = cc
