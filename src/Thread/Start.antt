-- ===== src/Thread/Start.antt =====
-- The start of a thread.
use mathlib.Core.Path.{subst}
use msh.Prelude.{
  ℕ, ◌+◌, ◌<◌, ◌≤◌, ◌≡◌, refl, sym, ap, ◌∙◌, true, false, ltb, if◌then◌else◌, ℤ, pos, minus_one,
  Outcome, ok, arith,
}
use msh.Allocate.Pool.{Stops}
use msh.Memory.{max_active_crt_num, max_thread_num, sizeof_yield_ctx, World, Loader}
use msh.IdxList.{hosted, need_more_scav}
use msh.IdxList.Ends.{IsPacked}
use msh.NextMap.{has_next}
use msh.Hosting.{IsHosting}
use msh.Hosting.Steps.{Same, Same-IsHosting}
use msh.Symbols.Frame.{IsLinked, IsLinked-handle}
use msh.Allocate.Donors.{DonorsPacked, Gain-DonorsPacked}
use msh.Allocate.Whole.{allocate_scav_lem}
use msh.Allocate.{allocate_scav}
use msh.Schedule.Running.{IsReady}
use msh.Thread.{init_primary_ctx, at_primary, alloc_ctx}

pub at_primary-Same : (t : ℕ) (w : World) → Same w (at_primary t w)
at_primary-Same t w = record {
  idx = λ s q. refl;
  runs = λ s q lo. refl;
  slot = λ j. refl;
  finished = λ j. refl;
  handle = λ j. refl;
}

pub init_primary_ctx-Same : (t n : ℕ) (w : World) → Same w (init_primary_ctx t n w)
unfolding init_primary_ctx
init_primary_ctx-Same t n w = record {
  idx = λ s q. ground arith;
  runs = λ s q lo. ground arith;
  slot = λ j. refl;
  finished = λ j. refl;
  handle = λ j. refl;
}

pub init_primary_ctx_list :
    (t n s : ℕ) (w : World) → ((init_primary_ctx t n w).prim s).idx_list ≡ (w.prim s).idx_list
unfolding init_primary_ctx
init_primary_ctx_list t n s w = ground arith

init_primary_ctx_flags :
    (t n s : ℕ) (w : World)
    → ((init_primary_ctx t n w).prim s).reallocatable ≡ true
    → (w.prim s).reallocatable ≡ true
unfolding init_primary_ctx
init_primary_ctx_flags t n s w e = ground arith

record PrimarySet (t n : ℕ) (w : World) : Type 0 where
  own : (w.prim t).reallocatable ≡ false
  taken : (w.prim t).reallocated ≡ false
  number : (w.prim t).scav_num ≡ n
  running : has_next (w.prim t).ycs 0 ≡ true
  link : ((w.prim t).ycs 0).normal_next ≡ (if ltb 0 n then pos sizeof_yield_ctx else pos 0)

init_primary_ctx_lem : (t n : ℕ) (w : World) → PrimarySet t n (init_primary_ctx t n w)
unfolding init_primary_ctx
init_primary_ctx_lem t n w = record {
  own = ground arith;
  taken = ground arith;
  number = ground arith;
  running = ground arith;
  link = ground arith;
}

-- A thread that has come from `alloc_ctx`.
pub record Entered (L : Loader) (t : ℕ) (w : World) (out : Outcome (ℤ × World)) : Type 0 where
  pub after : World
  pub result : out ≡ ok (pos 0, after)
  pub ready : IsReady L t after
  pub number : hosted (after.prim t).idx_list ≡ hosted (w.prim t).idx_list + (after.prim t).scav_num
  pub link :
      ((after.prim t).ycs 0).normal_next
      ≡ (if ltb 0 (after.prim t).scav_num then pos sizeof_yield_ctx else pos 0)
  pub packed : (s : ℕ) → IsPacked (w.prim s).idx_list → IsPacked (after.prim s).idx_list
  pub stops :
      Stops
        (need_more_scav w.max_scav_per_thread (w.prim t).idx_list)
        (after.prim t).scav_num
        0
        max_active_crt_num
        (after.prim t).idx_list
        after.scav

pub alloc_ctx_step :
    (L : Loader) (t n : ℕ) (w w1 : World)
    → t < max_thread_num
    → allocate_scav L t (at_primary t w) ≡ ok (n, w1)
    → alloc_ctx L t w ≡ ok (pos 0, init_primary_ctx t n w1)
unfolding alloc_ctx
alloc_ctx_step L t n w w1 h e =
    let inside : ltb t max_thread_num ≡ true = ground arith in rw (inside, e) refl

-- A thread number below 128, with its flag down, in consistent tables with every object linked and
-- the blocked threads packed: `msh_alloc_ctx` returns 0, and the thread is ready to run. `scav_num` is the number of scavengers that it has been given,
-- as many as it wants unless it hosts 128 then or no entry of the pool can be allocated any more,
-- and its primary is pointed at the first position if there are any, and at itself if not.
pub alloc_ctx_lem :
    (L : Loader) (t : ℕ) (w : World)
    → t < max_thread_num
    → IsHosting w
    → IsLinked L w
    → DonorsPacked w
    → (w.prim t).reallocatable ≡ false
    → Entered L t w (alloc_ctx L t w)
unfolding init_primary_ctx
alloc_ctx_lem L t w inside h linked donors own =
    let a =
      allocate_scav_lem L t (at_primary t w) (Same-IsHosting h (at_primary-Same t w))
        (IsLinked-handle linked (λ j. refl)) donors own in
    let same = init_primary_ctx-Same t a.taken a.after in
    let set = init_primary_ctx_lem t a.taken a.after in
    record {
      after = init_primary_ctx t a.taken a.after;
      result = alloc_ctx_step L t a.taken w a.after inside a.result;
      ready = record {
        hosting = Same-IsHosting a.gain.hosting same;
        linked = IsLinked-handle a.gain.linked same.handle;
        donors = λ s up.
            subst IsPacked (sym (init_primary_ctx_list t a.taken s a.after))
              (Gain-DonorsPacked a.gain donors s (init_primary_ctx_flags t a.taken s a.after up));
        own = set.own;
        running = set.running;
      };
      number =
          ap hosted (init_primary_ctx_list t a.taken t a.after)
          ∙ a.gain.count
          ∙ ap (λ n. hosted (w.prim t).idx_list + n) (sym set.number);
      link = set.link ∙ ap (λ n. if ltb 0 n then pos sizeof_yield_ctx else pos 0) (sym set.number);
      packed = λ s p.
          subst IsPacked (sym (init_primary_ctx_list t a.taken s a.after)) (a.gain.packed s p);
      stops =
          subst
            (λ n.
              Stops (need_more_scav w.max_scav_per_thread (w.prim t).idx_list) n 0
                max_active_crt_num ((init_primary_ctx t a.taken a.after).prim t).idx_list
                a.after.scav)
            (sym set.number)
            (subst
              (λ l.
                Stops (need_more_scav w.max_scav_per_thread (w.prim t).idx_list) a.taken 0
                  max_active_crt_num l a.after.scav)
              (sym (init_primary_ctx_list t a.taken t a.after)) a.stops);
    }

-- A thread number of 128 or more is refused, and only `cur_crt_pos` has been written then.
pub alloc_ctx_refused :
    (L : Loader) (t : ℕ) (w : World)
    → max_thread_num ≤ t
    → alloc_ctx L t w ≡ ok (minus_one, at_primary t w)
unfolding alloc_ctx
alloc_ctx_refused L t w h =
    let outside : ltb t max_thread_num ≡ false = ground arith in rw outside refl
