-- ===== src/Allocate/Pool.antt =====
-- Scavengers taken from the pool.
use mathlib.Core.Path.{subst}
use msh.Prelude.{
  ℕ, zero, suc, ◌+◌, ◌<◌, ◌≤◌, ◌≡◌, inl, inr, refl, ap, ◌∙◌, sym, true, false, leb, ◌==◌, ==→eq,
  if◌then◌else◌, none, some, Outcome, ok, Bool-cases, arith,
}
use msh.Memory.{max_crt_per_thread, CoroutineCtx, World, Loader}
use msh.IdxList.{IdxList, hosted, push_back}
use msh.IdxList.Push.{hosted-full}
use msh.IdxList.Ends.{push_back_cases}
use msh.Hosting.{IsHosting}
use msh.Hosting.Gain.{Gain, Gain-refl, Gain-trans}
use msh.Symbols.Frame.{IsLinked}
use msh.Allocate.{available, attach_pushed, from_pool}
use msh.Allocate.Attach.{attach_pushed_lem}

-- Why an allocation stops at `got` scavengers: the demand is met, the thread has no room, or no entry
-- of the pool from `i` on, `n` of them, can be allocated any more.
pub data Stops (demands got i n : ℕ) (l : IdxList) (scav : ℕ → CoroutineCtx) : Type 0 where
  met : demands ≤ got → Stops demands got i n l scav
  full : hosted l ≡ max_crt_per_thread → Stops demands got i n l scav
  used_up :
      ((j : ℕ) → i ≤ j → j < i + n → available (scav j) ≡ false) → Stops demands got i n l scav

-- An entry that cannot be allocated stays so.
pub Gain-unavailable :
    {L : Loader} {t n : ℕ} {w w' : World}
    → Gain L t n w w'
    → (j : ℕ) → available (w.scav j) ≡ false
    → available (w'.scav j) ≡ false
Gain-unavailable g j e = ground (arith, g.finished j, g.handle j, g.owned j)

pub Stops-Gain :
    {L : Loader} {t demands got i n : ℕ} {w w' : World}
    → Gain L t 0 w w'
    → Stops demands got i n (w.prim t).idx_list w.scav
    → Stops demands got i n (w'.prim t).idx_list w'.scav
Stops-Gain g (met enough) = met enough
Stops-Gain g (full e) = full (g.count ∙ omega (arith, e))
Stops-Gain g (used_up none_) = used_up (λ j lo hi. Gain-unavailable g j (none_ j lo hi))

Stops-later :
    {demands got ret i n : ℕ} {l : IdxList} {scav : ℕ → CoroutineCtx}
    → available (scav i) ≡ false
    → got ≡ ret
    → Stops demands got (i + 1) n l scav
    → Stops demands ret i (suc n) l scav
Stops-later busy e (met enough) = met (omega (arith, e))
Stops-later busy e (full x) = full x
Stops-later {i} {scav} busy e (used_up none_) = used_up (λ j lo hi. elim (Bool-cases (i == j)) [
  | inl here ↦ subst (λ k. available (scav k) ≡ false) (==→eq i j here) busy
  | inr there ↦ none_ j (ground arith) (omega arith)
])

-- The outcome of the second loop: it stops at the demand.
pub record FromPool (L : Loader) (t demands i n ret : ℕ) (w : World) (out : Outcome (ℕ × World))
    : Type 0 where
  pub taken : ℕ
  pub after : World
  pub result : out ≡ ok (ret + taken, after)
  pub gain : Gain L t taken w after
  pub bound : ret + taken ≤ demands
  pub stops : Stops demands (ret + taken) i n (after.prim t).idx_list after.scav

FromPool-later :
    {L : Loader} {t demands i n ret : ℕ} {w w1 : World} {out : Outcome (ℕ × World)}
    → Gain L t 1 w w1
    → available (w1.scav i) ≡ false
    → FromPool L t demands (i + 1) n (ret + 1) w1 out
    → FromPool L t demands i (suc n) ret w out
FromPool-later {ret} g busy r = record {
  taken = suc r.taken;
  after = r.after;
  result = r.result ∙ ap (λ k. ok (k, r.after)) (omega arith);
  gain = Gain-trans g r.gain (omega arith);
  bound = omega (arith, r.bound);
  stops = Stops-later (Gain-unavailable r.gain _ busy) (omega arith) r.stops;
}

FromPool-past :
    {L : Loader} {t demands i n ret : ℕ} {w : World} {out : Outcome (ℕ × World)}
    → available (w.scav i) ≡ false
    → FromPool L t demands (i + 1) n ret w out
    → FromPool L t demands i (suc n) ret w out
FromPool-past busy r = record {
  taken = r.taken;
  after = r.after;
  result = r.result;
  gain = r.gain;
  bound = r.bound;
  stops = Stops-later (Gain-unavailable r.gain _ busy) refl r.stops;
}

module _ (L : Loader) (t demands : ℕ) where
  FromPool-stop :
      (i n ret : ℕ) (w : World)
      → IsHosting w
      → IsLinked L w
      → ret ≤ demands
      → Stops demands ret i n (w.prim t).idx_list w.scav
      → FromPool L t demands i n ret w (ok (ret, w))
  FromPool-stop i n ret w h linked le stops = record {
    taken = 0;
    after = w;
    result = ap (λ k. ok (k, w)) (omega arith);
    gain = Gain-refl h linked;
    bound = omega arith;
    stops = subst (λ k. Stops demands k i n (w.prim t).idx_list w.scav) (omega arith) stops;
  }

  pub from_pool_skip :
      (n i ret : ℕ) (w : World)
      → available (w.scav i) ≡ false
      → from_pool L t demands (suc n) i ret w ≡ from_pool L t demands n (i + 1) ret w
  unfolding from_pool
  from_pool_skip n i ret w e = rw (e, from_pool) refl

  pub from_pool_full :
      (n i ret : ℕ) (w : World)
      → available (w.scav i) ≡ true
      → push_back (w.prim t).idx_list (max_crt_per_thread + 1) i ≡ ((w.prim t).idx_list, none)
      → from_pool L t demands (suc n) i ret w ≡ ok (ret, w)
  unfolding from_pool attach_pushed
  from_pool_full n i ret w e no_room = rw (e, from_pool, no_room) refl

  pub from_pool_take :
      (n i ret : ℕ) (w w1 : World)
      → available (w.scav i) ≡ true
      → attach_pushed L t i w (push_back (w.prim t).idx_list (max_crt_per_thread + 1) i)
        ≡ ok (some w1)
      → from_pool L t demands (suc n) i ret w ≡ (
          if leb demands (ret + 1)
          then ok (ret + 1, w1)
          else from_pool L t demands n (i + 1) (ret + 1) w1)
  unfolding from_pool
  from_pool_take n i ret w w1 e taken = rw (e, from_pool, taken) (ground arith)

  -- In consistent tables with every object linked, and with less than the demand so far, the loop
  -- over the pool returns. It reports what the thread has gained, keeps the tables consistent, and
  -- stays within the demand.
  pub from_pool_lem :
      (n i ret : ℕ) (w : World)
      → IsHosting w
      → IsLinked L w
      → ret < demands
      → FromPool L t demands i n ret w (from_pool L t demands n i ret w)
  unfolding from_pool
  from_pool_lem zero i ret w h linked less =
      FromPool-stop i 0 ret w h linked (omega arith) (used_up (λ j lo hi. absurd (omega arith)))
  from_pool_lem (suc n) i ret w h linked less = elim (Bool-cases (available (w.scav i))) [
    | inr busy ↦
        subst (FromPool L t demands i (suc n) ret w) (sym (from_pool_skip n i ret w busy))
          (FromPool-past busy (from_pool_lem n (i + 1) ret w h linked less))
    | inl free ↦
        elim (push_back_cases (w.prim t).idx_list (max_crt_per_thread + 1) i (omega arith)) [
          | inl no_room ↦
              subst (FromPool L t demands i (suc n) ret w)
                (sym (from_pool_full n i ret w free no_room.result))
                (FromPool-stop i (suc n) ret w h linked (omega arith) (
                  full (
                    hosted-full (w.prim t).idx_list (λ q lo hi. no_room.taken q lo (omega arith)))))
          | inr (p, pushed) ↦
              let (w1, e, gain, own) = attach_pushed_lem L t i p w h linked free pushed in
              let step =
                from_pool_take n i ret w w1 free (ap (attach_pushed L t i w) pushed.result ∙ e) in
              let busy : available (w1.scav i) ≡ false = ground (arith, own) in
              elim (Bool-cases (leb demands (ret + 1))) [
                | inl enough ↦
                    subst (FromPool L t demands i (suc n) ret w) (sym (step ∙ rw enough refl)) (
                      FromPool-later gain busy (
                        FromPool-stop (i + 1) n (ret + 1) w1 gain.hosting gain.linked (omega arith)
                          (met (ground arith))))
                | inr wanting ↦
                    subst (FromPool L t demands i (suc n) ret w) (sym (step ∙ rw wanting refl)) (
                      FromPool-later gain busy (
                        from_pool_lem n (i + 1) (ret + 1) w1 gain.hosting gain.linked
                          (ground arith)))
              ]
        ]
  ]
