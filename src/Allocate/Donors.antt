-- ===== src/Allocate/Donors.antt =====
-- Scavengers taken from blocked threads.
use mathlib.Core.Path.{subst}
use msh.Prelude.{
  ◌≤◌, ℕ, zero, suc, ◌+◌, ◌<◌, ◌≡◌, inl, inr, refl, ap, ◌∙◌, sym, Bool, true, false, leb,
  if◌then◌else◌, Outcome, ok, Bool-cases, arith,
}
use msh.Memory.{YieldCtx, World, Loader}
use msh.IdxList.{IdxList, hosted}
use msh.IdxList.Ends.{IsPacked}
use msh.NextMap.{has_next}
use msh.Hosting.{IsHosting}
use msh.Hosting.Steps.{Same, Same-IsHosting}
use msh.Hosting.Gain.{Gain, Gain-refl, Gain-trans}
use msh.Symbols.Frame.{IsLinked, IsLinked-handle}
use msh.Realloc.{realloc_scav}
use msh.Realloc.Loop.{realloc_scav_lem}
use msh.Allocate.{set_flag, from_threads}

-- A flag shows in nothing but itself.
pub set_flag_idx :
    (s : ℕ) (b : Bool) (w : World) (r : ℕ)
    → ((set_flag s b w).prim r).idx_list ≡ (w.prim r).idx_list
set_flag_idx s b w r = ground arith

pub set_flag_ycs :
    (s : ℕ) (b : Bool) (w : World) (r : ℕ) → ((set_flag s b w).prim r).ycs ≡ (w.prim r).ycs
set_flag_ycs s b w r = ground arith

pub set_flag-Same : (s : ℕ) (b : Bool) (w : World) → Same w (set_flag s b w)
set_flag-Same s b w = record {
  idx = λ r q. ap (λ (l : IdxList). l q) (set_flag_idx s b w r);
  runs = λ r q lo. ap (λ (y : ℕ → YieldCtx). has_next y q) (set_flag_ycs s b w r);
  slot = λ j. refl;
  finished = λ j. refl;
  handle = λ j. refl;
}

-- What is gained while a flag is down is gained, and the flag comes back up.
flagged-Gain :
    {L : Loader} {t n : ℕ} (s : ℕ) {w w' : World}
    → (w.prim s).reallocatable ≡ true
    → Gain L t n (set_flag s false w) w'
    → Gain L t n w (set_flag s true w')
flagged-Gain {t} s {w} {w'} up g = record {
  hosting = Same-IsHosting g.hosting (set_flag-Same s true w');
  linked = IsLinked-handle g.linked (λ j. refl);
  count =
      ap hosted (set_flag_idx s true w' t)
      ∙ omega (arith, g.count, ap hosted (set_flag_idx s false w t));
  finished = g.finished;
  handle = g.handle;
  owned = g.owned;
  primary_sp =
      ap (λ (y : ℕ → YieldCtx). (y 0).sp) (set_flag_ycs s true w' t)
      ∙ g.primary_sp
      ∙ ap (λ (y : ℕ → YieldCtx). (y 0).sp) (set_flag_ycs s false w t);
  primary_ip =
      ap (λ (y : ℕ → YieldCtx). (y 0).ip) (set_flag_ycs s true w' t)
      ∙ g.primary_ip
      ∙ ap (λ (y : ℕ → YieldCtx). (y 0).ip) (set_flag_ycs s false w t);
  primary_runs = λ r.
      ap (λ (y : ℕ → YieldCtx). has_next y 0) (set_flag_ycs s true w' t)
      ∙ g.primary_runs (ap (λ (y : ℕ → YieldCtx). has_next y 0) (set_flag_ycs s false w t) ∙ r);
  packed = λ r p.
      subst IsPacked (sym (set_flag_idx s true w' r))
        (g.packed r (subst IsPacked (sym (set_flag_idx s false w r)) p));
  flags = λ r. ground (arith, g.flags r);
  max = g.max;
}

-- Every thread whose scavengers may be taken has its list packed.
abbrev pub DonorsPacked : World → Type 0
DonorsPacked w = (s : ℕ) → (w.prim s).reallocatable ≡ true → IsPacked (w.prim s).idx_list

pub Gain-DonorsPacked :
    {L : Loader} {t n : ℕ} {w w' : World} → Gain L t n w w' → DonorsPacked w → DonorsPacked w'
Gain-DonorsPacked g packed s up = g.packed s (packed s (sym (g.flags s) ∙ up))

-- The outcome of the first loop: it says how many came, and it goes on to the pool only if these
-- are too few.
pub record FromThreads (L : Loader) (t demands ret : ℕ) (w : World)
    (out : Outcome (Bool × ℕ × World)) : Type 0 where
  pub done : Bool
  pub taken : ℕ
  pub after : World
  pub result : out ≡ ok (done, ret + taken, after)
  pub gain : Gain L t taken w after
  pub enough : done ≡ true → demands ≤ ret + taken
  pub wanting : done ≡ false → ret + taken < demands
  pub bound : ret + taken < demands + demands

-- The rest of the loop, after `cnt` have come.
FromThreads-later :
    {L : Loader} {t demands ret cnt : ℕ} {w w1 : World} {out : Outcome (Bool × ℕ × World)}
    → Gain L t cnt w w1
    → FromThreads L t demands (ret + cnt) w1 out
    → FromThreads L t demands ret w out
FromThreads-later {ret} {cnt} g r = record {
  done = r.done;
  taken = cnt + r.taken;
  after = r.after;
  result = r.result ∙ ap (λ k. ok (r.done, k, r.after)) (omega arith);
  gain = Gain-trans g r.gain refl;
  enough = λ e. omega (arith, r.enough e);
  wanting = λ e. omega (arith, r.wanting e);
  bound = omega (arith, r.bound);
}

module _ (L : Loader) (t demands : ℕ) where
  pub from_threads_down :
      (n s ret : ℕ) (w : World)
      → (w.prim s).reallocatable ≡ false
      → from_threads L t demands (suc n) s ret w ≡ from_threads L t demands n (s + 1) ret w
  unfolding from_threads
  from_threads_down n s ret w e = rw (e, from_threads) refl

  from_threads_up :
      (n s ret cnt : ℕ) (w w1 : World)
      → (w.prim s).reallocatable ≡ true
      → realloc_scav L s t demands 0 (set_flag s false w) ≡ ok (cnt, w1)
      → from_threads L t demands (suc n) s ret w ≡ (
          if leb demands (ret + cnt)
          then ok (true, ret + cnt, set_flag s true w1)
          else from_threads L t demands n (s + 1) (ret + cnt) (set_flag s true w1))
  unfolding from_threads
  from_threads_up n s ret cnt w w1 up e = rw (up, from_threads, e) (ground arith)

  -- For a thread that hosts consistently, with its own flag down, every object linked, the blocked
  -- threads packed, and less than the demand so far, the loop over the threads returns. It reports
  -- what the thread has gained, keeps the tables consistent, stays below twice the demand, and goes
  -- on to the pool only when the demand is not met.
  pub from_threads_lem :
      (n s ret : ℕ) (w : World)
      → IsHosting w
      → IsLinked L w
      → DonorsPacked w
      → (w.prim t).reallocatable ≡ false
      → ret < demands
      → FromThreads L t demands ret w (from_threads L t demands n s ret w)
  unfolding from_threads
  from_threads_lem zero s ret w h linked packed own less = record {
    done = false;
    taken = 0;
    after = w;
    result = ap (λ r. ok (false, r, w)) (omega arith);
    gain = Gain-refl h linked;
    enough = λ e. cc;
    wanting = λ e. omega arith;
    bound = omega arith;
  }
  from_threads_lem (suc n) s ret w h linked packed own less =
      elim (Bool-cases (w.prim s).reallocatable) [
        | inr down ↦
            subst (FromThreads L t demands ret w) (sym (from_threads_down n s ret w down))
              (from_threads_lem n (s + 1) ret w h linked packed own less)
        | inl up ↦
            let (cnt, w1, e, bound, gain) =
              realloc_scav_lem L s t demands 0 (set_flag s false w) (ground arith)
                (Same-IsHosting h (set_flag-Same s false w)) (IsLinked-handle linked (λ j. refl))
                (subst IsPacked (sym (set_flag_idx s false w s)) (packed s up)) in
            let gain1 : Gain L t cnt w (set_flag s true w1) = flagged-Gain s up gain in
            let step =
              from_threads_up n s ret cnt w w1 up (e ∙ ap (λ k. ok (k, w1)) (omega arith)) in
            elim (Bool-cases (leb demands (ret + cnt))) [
              | inl enough ↦ record {
                done = true;
                taken = cnt;
                after = set_flag s true w1;
                result = step ∙ rw enough refl;
                gain = gain1;
                enough = λ x. ground arith;
                wanting = λ x. cc;
                bound = omega (arith, bound);
              }
              | inr wanting ↦ subst (FromThreads L t demands ret w) (sym (step ∙ rw wanting refl)) (
                  FromThreads-later gain1 (
                    from_threads_lem n (s + 1) (ret + cnt) (set_flag s true w1) gain1.hosting
                      gain1.linked (Gain-DonorsPacked gain1 packed) (gain1.flags t ∙ own)
                      (ground arith)))
            ]
      ]
