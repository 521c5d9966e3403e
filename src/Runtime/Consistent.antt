-- ===== src/Runtime/Consistent.antt =====
-- The tables and the phases of the threads, step by step.
use mathlib.Core.Path.{subst}
use msh.Prelude.{
  ℕ, ◌≡◌, inl, inr, refl, ap, ◌∙◌, sym, Bool, true, false, ◌==◌, update, pos, minus_one, ==→eq,
  Bool-cases, arith,
}
use msh.Memory.{World, Loader}
use msh.IdxList.Ends.{IsPacked}
use msh.Hosting.{IsHosting}
use msh.Hosting.Keeps.{Keeps}
use msh.Hosting.Steps.{Same-IsHosting}
use msh.Symbols.Frame.{IsLinked, IsLinked-handle}
use msh.Allocate.{set_flag}
use msh.Allocate.Donors.{DonorsPacked, set_flag-Same, set_flag_idx}
use msh.Schedule.Tables.{sched_next_crt-Returned}
use msh.Schedule.Calling.{IsCalling, Returned}
use msh.Cleanup.{world_of}
use msh.Cleanup.Tables.{after_setjmp-Keeps, msh_cleanup-Keeps}
use msh.Thread.{enter_blockable_call}
use msh.Thread.Tables.{Called, alloc_ctx-Called, lowered-IsCalling, exit_blockable_call-Called}
use msh.Runtime.{
  Phase, absent, working, blocked, ending, System, go, phase_after, Step, starts, refused, enters,
  spins, exits, returns, cleans, drains, rejoins,
}

abbrev pub is_blocked : Phase → Bool
is_blocked absent = false
is_blocked working = false
is_blocked blocked = true
is_blocked ending = false

abbrev pub is_ending : Phase → Bool
is_ending absent = false
is_ending working = false
is_ending blocked = false
is_ending ending = true

-- The tables are consistent, the flags show which threads are in a blockable call, and only a
-- thread that cleans up has holes in its list.
pub record IsConsistent (L : Loader) (S : System) : Type 0 where
  pub hosting : IsHosting S.world
  pub linked : IsLinked L S.world
  pub flag : (t : ℕ) → (S.world.prim t).reallocatable ≡ is_blocked (S.phase t)
  pub packed : (t : ℕ) → is_ending (S.phase t) ≡ false → IsPacked (S.world.prim t).idx_list

module _ {L : Loader} {S : System} (c : IsConsistent L S) where
  pub donors : DonorsPacked S.world
  donors s up = c.packed s (ground (arith, c.flag s))

  pub calling : (t : ℕ) → is_blocked (S.phase t) ≡ false → IsCalling L t S.world
  calling t off = record {
    hosting = c.hosting;
    linked = c.linked;
    donors = donors;
    own = c.flag t ∙ off;
  }

  -- After a call of `t` that leaves it in a phase that its list and its flag suit.
  gone :
      (t : ℕ) (p : Phase) (w : World)
      → Keeps L t S.world w
      → is_blocked (S.phase t) ≡ false
      → is_blocked p ≡ false
      → (is_ending p ≡ false → IsPacked (w.prim t).idx_list)
      → IsConsistent L (go t p w S)
  gone t p w k off off' packed = record {
    hosting = k.hosting;
    linked = k.linked;
    flag = λ s. k.flags s ∙ c.flag s ∙ shown s;
    packed = λ s e. elim (Bool-cases (t == s)) [
      | inl here ↦
          subst (λ r. IsPacked (w.prim r).idx_list) (==→eq t s here) (packed (ground arith))
      | inr there ↦ k.packed s there (c.packed s (ground arith))
    ];
  }
    where
      shown : (s : ℕ) → is_blocked (S.phase s) ≡ is_blocked (update S.phase t p s)
      shown s = elim (Bool-cases (t == s)) [
        | inl here ↦
            rw here (ap (λ r. is_blocked (S.phase r)) (sym (==→eq t s here)) ∙ off ∙ sym off')
        | inr there ↦ rw there refl
      ]

  -- A thread enters a blockable call.
  entered :
      (t : ℕ)
      → S.phase t ≡ working
      → IsConsistent L (go t blocked (enter_blockable_call t S.world) S)
  unfolding enter_blockable_call
  entered t at_ = record {
    hosting = Same-IsHosting c.hosting (set_flag-Same t true S.world);
    linked = IsLinked-handle c.linked (λ j. refl);
    flag = λ s. elim (Bool-cases (t == s)) [
      | inl here ↦ ground arith
      | inr there ↦ ground (arith, c.flag s)
    ];
    packed = λ s e.
        subst IsPacked (sym (set_flag_idx t true S.world s)) (elim (Bool-cases (t == s)) [
          | inl here ↦
              subst (λ r. IsPacked (S.world.prim r).idx_list) (==→eq t s here)
                (c.packed t (ap is_ending at_))
          | inr there ↦ c.packed s (ground arith)
        ]);
  }

  -- A thread leaves it.
  left :
      (t : ℕ) (w : World)
      → S.phase t ≡ blocked
      → Called L t (set_flag t false S.world) w
      → IsConsistent L (go t working w S)
  left t w at_ called = record {
    hosting = called.keeps.hosting;
    linked = called.keeps.linked;
    flag = λ s. elim (Bool-cases (t == s)) [
      | inl here ↦ ground (arith, called.keeps.flags s)
      | inr there ↦ ground (arith, called.keeps.flags s, c.flag s)
    ];
    packed = λ s e. elim (Bool-cases (t == s)) [
      | inl here ↦
          subst (λ r. IsPacked (w.prim r).idx_list) (==→eq t s here)
            (called.packed (
              subst IsPacked (sym (set_flag_idx t false S.world t))
                (c.packed t (ap is_ending at_))))
      | inr there ↦
          called.keeps.packed s there
            (subst IsPacked (sym (set_flag_idx t false S.world s)) (c.packed s (ground arith)))
    ];
  }

  after_return :
      (t : ℕ) (w : World)
      → S.phase t ≡ working
      → Returned L t S.world w
      → IsConsistent L (go t (phase_after t w) w S)
  after_return t w at_ r =
      gone t (phase_after t w) w r.keeps (ap is_blocked at_) (ground arith)
        (λ e. r.packed (ground arith))

-- A step keeps the state consistent, and no finished scavenger is taken back.
pub record Safe (L : Loader) (S S' : System) : Type 0 where
  pub consistent : IsConsistent L S'
  pub finished : (j : ℕ) → (S.world.scav j).finished ≡ true → (S'.world.scav j).finished ≡ true

pub Step-Safe : {L : Loader} {S S' : System} → IsConsistent L S → Step L S S' → Safe L S S'
unfolding enter_blockable_call
Step-Safe {L} {S} c (starts t w at_ e) =
    let k = alloc_ctx-Called L t (pos 0) S.world w (calling c t (ap is_blocked at_)) e in
    record {
      consistent =
          gone c t working w k.keeps (ap is_blocked at_) refl
            (λ d. k.packed (c.packed t (ap is_ending at_)));
      finished = k.keeps.finished;
    }
Step-Safe {L} {S} c (refused t w at_ e) =
    let k = alloc_ctx-Called L t minus_one S.world w (calling c t (ap is_blocked at_)) e in
    record {
      consistent = gone c t ending w k.keeps (ap is_blocked at_) refl (λ d. cc);
      finished = k.keeps.finished;
    }
Step-Safe c (enters t at_) = record { consistent = entered c t at_; finished = λ j d. d }
Step-Safe c (spins t at_ e) = record { consistent = c; finished = λ j d. d }
Step-Safe {L} {S} c (exits t w at_ e) =
    let k =
      exit_blockable_call-Called L t S.world w
        (lowered-IsCalling L t S.world c.hosting c.linked (donors c)) e in
    record { consistent = left c t w at_ k; finished = k.keeps.finished }
Step-Safe {L} {S} c (returns t ret s w at_ e) =
    let r = sched_next_crt-Returned L t ret S.world w s (calling c t (ap is_blocked at_)) e in
    record { consistent = after_return c t w at_ r; finished = r.keeps.finished }
Step-Safe {L} {S} c (cleans t skip d at_ e) =
    let k = msh_cleanup-Keeps L t skip S.world d (calling c t (ap is_blocked at_)) e in
    record {
      consistent = gone c t ending (world_of d) k (ap is_blocked at_) refl (λ x. cc);
      finished = k.finished;
    }
Step-Safe {L} {S} c (drains t ret s w at_ e) =
    let r = sched_next_crt-Returned L t ret S.world w s (calling c t (ap is_blocked at_)) e in
    record {
      consistent = gone c t ending w r.keeps (ap is_blocked at_) refl (λ x. cc);
      finished = r.keeps.finished;
    }
Step-Safe {L} {S} c (rejoins t d at_ e) =
    let k = after_setjmp-Keeps L t S.world d (calling c t (ap is_blocked at_)) e in
    record {
      consistent = gone c t ending (world_of d) k (ap is_blocked at_) refl (λ x. cc);
      finished = k.finished;
    }
