-- ===== src/Thread/Blocking.antt =====
-- The bracket round a call that may block.
use mathlib.Core.Path.{subst}
use msh.Prelude.{
  ℕ, ◌≡◌, inl, inr, refl, sym, ap, ◌∙◌, Bool, true, false, ◌==◌, Option, some, none, Outcome, ok,
  ◌>>=◌, Bool-cases, arith,
}
use msh.IdxList.{hosted, need_more_scav}
use msh.NextMap.Available.{Pointed}
use msh.Allocate.Pool.{Stops}
use msh.Memory.{max_active_crt_num, YieldCtx, World, Loader}
use msh.IdxList.Ends.{IsPacked}
use msh.NextMap.{has_next}
use msh.Hosting.{IsHosting}
use msh.Hosting.Steps.{Same, Same-IsHosting}
use msh.Symbols.Frame.{IsLinked, IsLinked-handle}
use msh.Allocate.{allocate_scav, set_flag}
use msh.Allocate.Donors.{DonorsPacked, set_flag-Same, set_flag_idx, set_flag_ycs}
use msh.Schedule.{update_map}
use msh.Schedule.Running.{IsReady, Given, refill_running, refill_lem}
use msh.Thread.{clear_reallocated, enter_blockable_call, exit_blockable_call}

-- A thread in a blocking call: others may take its scavengers.
pub record IsBlocked (L : Loader) (t : ℕ) (w : World) : Type 0 where
  pub hosting : IsHosting w
  pub linked : IsLinked L w
  pub donors : DonorsPacked w
  pub exposed : (w.prim t).reallocatable ≡ true
  pub running : has_next (w.prim t).ycs 0 ≡ true

pub flag_here : (t : ℕ) (b : Bool) (w : World) → ((set_flag t b w).prim t).reallocatable ≡ b
flag_here t b w = ground arith

pub flag_there :
    (t s : ℕ) (b : Bool) (w : World)
    → (t == s) ≡ false
    → ((set_flag t b w).prim s).reallocatable ≡ (w.prim s).reallocatable
flag_there t s b w e = ground arith

runs_after :
    (t : ℕ) (b : Bool) (w : World)
    → has_next ((set_flag t b w).prim t).ycs 0 ≡ has_next (w.prim t).ycs 0
runs_after t b w = ap (λ (y : ℕ → YieldCtx). has_next y 0) (set_flag_ycs t b w t)

-- A ready thread whose list is packed is open to the others once it has entered the call.
pub enter_blockable_call_lem :
    (L : Loader) (t : ℕ) (w : World)
    → IsReady L t w
    → IsPacked (w.prim t).idx_list
    → IsBlocked L t (enter_blockable_call t w)
unfolding enter_blockable_call
enter_blockable_call_lem L t w r packed = record {
  hosting = Same-IsHosting r.hosting (set_flag-Same t true w);
  linked = IsLinked-handle r.linked (λ j. refl);
  donors = λ s up. subst IsPacked (sym (set_flag_idx t true w s)) (elim (Bool-cases (t == s)) [
    | inl here ↦ subst (λ k. IsPacked (w.prim k).idx_list) (ground arith) packed
    | inr there ↦ r.donors s (sym (flag_there t s true w there) ∙ up)
  ]);
  exposed = flag_here t true w;
  running = runs_after t true w ∙ r.running;
}

-- What a thread finds when it has left the call.
pub record Reentered (L : Loader) (t : ℕ) (w : World) (out : Outcome (Option World)) : Type 0 where
  pub after : World
  pub result : out ≡ ok (some after)
  pub ready : IsReady L t after
  pub settled : (after.prim t).reallocated ≡ false
  pub sp : ((after.prim t).ycs 0).sp ≡ ((w.prim t).ycs 0).sp
  pub ip : ((after.prim t).ycs 0).ip ≡ ((w.prim t).ycs 0).ip
  pub finished : (j : ℕ) → (after.scav j).finished ≡ (w.scav j).finished
  pub kept : (w.prim t).reallocated ≡ false → after ≡ set_flag t false w
  pub given : (w.prim t).reallocated ≡ true → Given t (set_flag t false w) after

lowered-IsReady :
    (L : Loader) (t : ℕ) (w : World) → IsBlocked L t w → IsReady L t (set_flag t false w)
lowered-IsReady L t w b = record {
  hosting = Same-IsHosting b.hosting (set_flag-Same t false w);
  linked = IsLinked-handle b.linked (λ j. refl);
  donors = λ s up. subst IsPacked (sym (set_flag_idx t false w s)) (elim (Bool-cases (t == s)) [
    | inl here ↦ absurd (ground arith)
    | inr there ↦ b.donors s (sym (flag_there t s false w there) ∙ up)
  ]);
  own = flag_here t false w;
  running = runs_after t false w ∙ b.running;
}

pub exit_kept :
    (L : Loader) (t : ℕ) (w : World)
    → (w.prim t).reallocatable ≡ true
    → ((set_flag t false w).prim t).reallocated ≡ false
    → exit_blockable_call L t w ≡ ok (some (set_flag t false w))
unfolding exit_blockable_call
exit_kept L t w e kept = rw (e, exit_blockable_call, kept) refl

pub exit_taken :
    (L : Loader) (t : ℕ) (w v : World)
    → (w.prim t).reallocatable ≡ true
    → ((set_flag t false w).prim t).reallocated ≡ true
    → (allocate_scav L t (set_flag t false w) >>= λ (cnt, w2). ok (update_map t w2)) ≡ ok v
    → exit_blockable_call L t w ≡ ok (some (clear_reallocated t v))
unfolding exit_blockable_call
exit_taken L t w v e taken again = rw (e, exit_blockable_call, taken, again) refl

pub cleared-Same : (t : ℕ) (w : World) → Same w (clear_reallocated t w)
cleared-Same t w = record {
  idx = λ s q. ground arith;
  runs = λ s q lo. ground arith;
  slot = λ j. refl;
  finished = λ j. refl;
  handle = λ j. refl;
}

pub cleared_list :
    (t s : ℕ) (w : World) → ((clear_reallocated t w).prim s).idx_list ≡ (w.prim s).idx_list
cleared_list t s w = ground arith

pub cleared_flag :
    (t s : ℕ) (w : World)
    → ((clear_reallocated t w).prim s).reallocatable ≡ (w.prim s).reallocatable
cleared_flag t s w = ground arith

cleared_ycs : (t s : ℕ) (w : World) → ((clear_reallocated t w).prim s).ycs ≡ (w.prim s).ycs
cleared_ycs t s w = ground arith

cleared_reset : (t : ℕ) (w : World) → ((clear_reallocated t w).prim t).reallocated ≡ false
cleared_reset t w = ground arith

cleared-IsReady :
    (L : Loader) (t : ℕ) (w : World) → IsReady L t w → IsReady L t (clear_reallocated t w)
cleared-IsReady L t w r = record {
  hosting = Same-IsHosting r.hosting (cleared-Same t w);
  linked = IsLinked-handle r.linked (λ j. refl);
  donors = λ s up.
      subst IsPacked (sym (cleared_list t s w)) (r.donors s (sym (cleared_flag t s w) ∙ up));
  own = cleared_flag t t w ∙ r.own;
  running = ap (λ y. has_next y 0) (cleared_ycs t t w) ∙ r.running;
}

Given-congr :
    {t : ℕ} {v x : World}
    → Given t v x
    → ((clear_reallocated t x).prim t).idx_list ≡ (x.prim t).idx_list
    → ((clear_reallocated t x).prim t).ycs ≡ (x.prim t).ycs
    → Given t v (clear_reallocated t x)
Given-congr {t} {v} {x} g lists links = record {
  taken = g.taken;
  count = ap hosted lists ∙ g.count;
  stops =
      subst
        (λ l.
          Stops (need_more_scav v.max_scav_per_thread (v.prim t).idx_list) g.taken 0
            max_active_crt_num l x.scav)
        (sym lists) g.stops;
  pointed = subst Pointed (sym links) g.pointed;
}

-- A thread that leaves a blocking call while its flag is up, in consistent tables with every object
-- linked and the blocked threads packed, its primary running, comes back ready: its flag is down,
-- the note that some of its scavengers were taken is cleared, its primary is where it was, and no
-- scavenger is finished by it. Without the note nothing but the flag changes. With it the thread is
-- given as many scavengers as it wants, unless it hosts 128 then or no entry of the pool can be
-- allocated any more, and the primary yields to the first scavenger of the thread.
pub exit_blockable_call_lem :
    (L : Loader) (t : ℕ) (w : World) → IsBlocked L t w → Reentered L t w (exit_blockable_call L t w)
exit_blockable_call_lem L t w b =
    let lowered = lowered-IsReady L t w b in
    let w1 = set_flag t false w in
    let same : (w1.prim t).ycs ≡ (w.prim t).ycs = set_flag_ycs t false w t in
    elim (Bool-cases (w1.prim t).reallocated) [
      | inr kept ↦ record {
        after = w1;
        result = exit_kept L t w b.exposed kept;
        ready = lowered;
        settled = kept;
        sp = ap (λ (y : ℕ → YieldCtx). (y 0).sp) same;
        ip = ap (λ (y : ℕ → YieldCtx). (y 0).ip) same;
        finished = λ j. refl;
        kept = λ e. refl;
        given = λ e. absurd (ground arith);
      }
      | inl taken ↦
          let f = refill_lem L t w1 lowered in
          let cleared : (((clear_reallocated t f.after).prim t).ycs ≡ (f.after.prim t).ycs) =
            cleared_ycs t t f.after in
          record {
            after = clear_reallocated t f.after;
            result =
                exit_taken L t w f.after b.exposed taken
                  (sym (refill_running L t w1 lowered.running) ∙ f.result);
            ready = cleared-IsReady L t f.after f.ready;
            settled = cleared_reset t f.after;
            sp =
                ap (λ (y : ℕ → YieldCtx). (y 0).sp) cleared
                ∙ f.sp
                ∙ ap (λ (y : ℕ → YieldCtx). (y 0).sp) same;
            ip =
                ap (λ (y : ℕ → YieldCtx). (y 0).ip) cleared
                ∙ f.ip
                ∙ ap (λ (y : ℕ → YieldCtx). (y 0).ip) same;
            finished = f.finished;
            kept = λ e. absurd (ground arith);
            given = λ e. Given-congr f.given (cleared_list t t f.after) cleared;
          }
    ]

-- While another thread holds the flag the loop goes round, and nothing is written.
pub exit_blockable_call_held :
    (L : Loader) (t : ℕ) (w : World)
    → (w.prim t).reallocatable ≡ false
    → exit_blockable_call L t w ≡ ok none
unfolding exit_blockable_call
exit_blockable_call_held L t w e = rw (e, exit_blockable_call) refl
