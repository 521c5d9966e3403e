-- ===== src/Cleanup/Done.antt =====
-- What has become of the scavengers of a thread when its cleanup is done.
use msh.Prelude.{
  ℕ, zero, suc, ◌≤◌, ◌≡◌, inl, inr, refl, ◌∙◌, true, false, ◌==◌, update, none, some, ℤ, pos, ok,
  Bool-cases, arith,
}
use msh.Memory.{max_crt_per_thread, World, put_yc, Loader}
use msh.IdxList.{find_unfinished_crt}
use msh.IdxList.Push.{AllFinished}
use msh.Hosting.{idx_at, IsHosting}
use msh.Hosting.Steps.{Same, Same-IsHosting, Detach}
use msh.Schedule.{end_cleanup}
use msh.Cleanup.{returned, running, after_setjmp, run_control}
use msh.Cleanup.Prepare.{IsDraining, Quiet}

-- What has become of the scavengers of `t` when `msh_cleanup` has returned.
pub record Drained (t : ℕ) (w w' : World) : Type 0 where
  pub hosting : IsHosting w'
  pub free : (p : ℕ) → 1 ≤ p → p ≤ max_crt_per_thread → idx_at w' t p ≡ none
  pub finished :
      (p i : ℕ)
      → 1 ≤ p
      → p ≤ max_crt_per_thread
      → idx_at w t p ≡ some i
      → (w'.scav i).finished ≡ true
  pub kept : (j : ℕ) → (w.scav j).finished ≡ true → (w'.scav j).finished ≡ true
  pub others : (s q : ℕ) → (t == s) ≡ false → idx_at w' s q ≡ idx_at w s q
  pub reset : ((w'.prim t).ycs 0).normal_next ≡ pos 0
  pub handle : (j : ℕ) → (w'.scav j).lib_handle ≡ (w.scav j).lib_handle
  pub quiet : Quiet t w w'

-- `reset yc[0].next = 0`
abbrev pub primary_reset : ℕ → World → World
primary_reset t w = put_yc t 0 (record ((w.prim t).ycs 0) { normal_next = pos 0 }) w

pub after_setjmp_done :
    (L : Loader) (t : ℕ) (w : World)
    → find_unfinished_crt (w.prim t).idx_list ≡ 0
    → after_setjmp L t w ≡ ok (returned (primary_reset t w))
unfolding after_setjmp
after_setjmp_done L t w e = rw (e, after_setjmp) refl

pub reset-Same : (t : ℕ) (w : World) → Same w (primary_reset t w)
reset-Same t w = record {
  idx = λ s q. ground arith;
  runs = λ s q lo. ground arith;
  slot = λ j. refl;
  finished = λ j. refl;
  handle = λ j. refl;
}

-- With nothing left the thread is drained.
pub reset-Drained :
    (t : ℕ) (w : World)
    → IsHosting w
    → AllFinished (w.prim t).idx_list
    → Drained t w (primary_reset t w)
reset-Drained t w h all = record {
  hosting = Same-IsHosting h (reset-Same t w);
  free = λ p lo hi. (reset-Same t w).idx t p ∙ all.free p lo hi;
  finished = λ p i lo hi e. absurd (ground (arith, all.free p lo hi));
  kept = λ j e. e;
  others = λ s q off. (reset-Same t w).idx s q;
  reset = ground arith;
  handle = λ j. refl;
  quiet = record { flags = λ s. ground arith; contexts = λ s off. ground arith };
}

Quiet-trans : {t : ℕ} {w w' w'' : World} → Quiet t w w' → Quiet t w' w'' → Quiet t w w''
Quiet-trans d e = record {
  flags = λ s. e.flags s ∙ d.flags s;
  contexts = λ s off. e.contexts s off ∙ d.contexts s off;
}

pub Detach-Drained :
    (t p i : ℕ) (w w' w'' : World)
    → idx_at w t p ≡ some i
    → Detach w w' t p i
    → Quiet t w w'
    → Drained t w' w''
    → Drained t w w''
Detach-Drained t p i w w' w'' was d quiet r = record {
  hosting = r.hosting;
  free = r.free;
  finished = λ q j lo hi e. elim (Bool-cases (p == q)) [
    | inl here ↦ r.kept j (ground (arith, d.finished j, d.idx t q))
    | inr off ↦ r.finished q j lo hi (ground (arith, d.idx t q))
  ];
  kept = λ j e. r.kept j (ground (arith, d.finished j));
  others = λ s q off. r.others s q off ∙ ground (arith, d.idx s q);
  reset = r.reset;
  handle = λ j. r.handle j ∙ d.handle j;
  quiet = Quiet-trans quiet r.quiet;
}

pub Same-Drained :
    (t : ℕ) (w w' w'' : World) → Same w w' → Quiet t w w' → Drained t w' w'' → Drained t w w''
Same-Drained t w w' w'' e quiet r = record {
  hosting = r.hosting;
  free = r.free;
  finished = λ p i lo hi x. r.finished p i lo hi (e.idx t p ∙ x);
  kept = λ j x. r.kept j (e.finished j ∙ x);
  others = λ s q off. r.others s q off ∙ e.idx s q;
  reset = r.reset;
  handle = λ j. r.handle j ∙ e.handle j;
  quiet = Quiet-trans quiet r.quiet;
}

-- A change of `cur_crt_pos` shows in nothing of this.
abbrev pub at_pos : ℕ → ℤ → World → World
at_pos t c w = record w { cur_crt_pos = update w.cur_crt_pos t c }

pub at_pos-Same : (t : ℕ) (c : ℤ) (w : World) → Same w (at_pos t c w)
at_pos-Same t c w = record {
  idx = λ s q. refl;
  runs = λ s q lo. refl;
  slot = λ j. refl;
  finished = λ j. refl;
  handle = λ j. refl;
}

pub at_pos-Quiet : (t : ℕ) (c : ℤ) (w : World) → Quiet t w (at_pos t c w)
at_pos-Quiet t c w = record { flags = λ s. refl; contexts = λ s off. refl }

pub at_pos-IsDraining :
    (L : Loader) (t : ℕ) (c : ℤ) (w : World) → IsDraining L t w → IsDraining L t (at_pos t c w)
at_pos-IsDraining L t c w d = record {
  hosting = Same-IsHosting d.hosting (at_pos-Same t c w);
  linked = record { has = d.linked.has };
  over = d.over;
  symbols = d.symbols;
}

pub run_returned :
    (L : Loader) (t fuel : ℕ) (w : World) → run_control L t fuel (returned w) ≡ ok (returned w)
unfolding run_control
run_returned L t zero w = refl
run_returned L t (suc fuel) w = refl

pub run_end :
    (L : Loader) (t fuel : ℕ) (w : World)
    → find_unfinished_crt (w.prim t).idx_list ≡ 0
    → run_control L t (suc fuel) (running end_cleanup w) ≡ ok (returned (primary_reset t w))
unfolding run_control
run_end L t fuel w e = rw (after_setjmp_done L t w e) (run_returned L t fuel (primary_reset t w))
