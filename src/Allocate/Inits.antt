-- ===== src/Allocate/Inits.antt =====
-- The contexts and the marks round `call_init_for_new_scav`.
use mathlib.Core.Path.{subst}
use msh.Prelude.{
  ℕ, zero, suc, ◌+◌, ◌<◌, ◌≤◌, ◌≡◌, inl, inr, refl, ap, ◌∙◌, sym, not, true, ◌==◌, is_some, Option,
  some, is_minus_one, Bool-cases, arith,
}
use msh.Memory.{max_crt_per_thread, YieldCtx, World, Loader}
use msh.IdxList.{hosted}
use msh.IdxList.Ends.{IsPacked}
use msh.Hosting.{idx_at, IsHosting}
use msh.Hosting.Steps.{Same-IsHosting}
use msh.Hosting.Gain.{Gain}
use msh.Symbols.Frame.{IsLinked, IsLinked-handle}
use msh.Allocate.{init_at, init_from, call_init_for_new_scav}

-- The tables agree but for the marks in `inited`, which are only set.
pub record InitsOnly (w w' : World) : Type 0 where
  pub idx_list : (s : ℕ) → (w'.prim s).idx_list ≡ (w.prim s).idx_list
  pub ycs : (s r : ℕ) → (w'.prim s).ycs r ≡ (w.prim s).ycs r
  pub flags : (s : ℕ) → (w'.prim s).reallocatable ≡ (w.prim s).reallocatable
  pub slot : (j : ℕ) → (w'.scav j).yc ≡ (w.scav j).yc
  pub finished : (j : ℕ) → (w'.scav j).finished ≡ (w.scav j).finished
  pub handle : (j : ℕ) → (w'.scav j).lib_handle ≡ (w.scav j).lib_handle
  pub init : (j : ℕ) → (w'.scav j).init ≡ (w.scav j).init
  pub inited : (j : ℕ) → (w.scav j).inited ≡ true → (w'.scav j).inited ≡ true
  pub max : w'.max_scav_per_thread ≡ w.max_scav_per_thread

module _ (L : Loader) (t : ℕ) where
  init_at-InitsOnly : (p : ℕ) (w : World) → InitsOnly w (init_at L t p w)
  unfolding init_at
  init_at-InitsOnly p w = record {
    idx_list = λ s. ground arith;
    ycs = λ s r. ground arith;
    flags = λ s. ground arith;
    slot = λ j. ground arith;
    finished = λ j. ground arith;
    handle = λ j. ground arith;
    init = λ j. ground arith;
    inited = λ j e. ground arith;
    max = ground arith;
  }

  -- After the call at `p`, the scavenger there has had its `init`, if it has one.
  init_at_done :
      (p i : ℕ) (w : World)
      → idx_at w t p ≡ some i
      → is_some (w.scav i).init ≡ true
      → ((init_at L t p w).scav i).inited ≡ true
  unfolding init_at
  init_at_done p i w e has = ground arith

pub InitsOnly-refl : (w : World) → InitsOnly w w
InitsOnly-refl w = record {
  idx_list = λ s. refl;
  ycs = λ s r. refl;
  flags = λ s. refl;
  slot = λ j. refl;
  finished = λ j. refl;
  handle = λ j. refl;
  init = λ j. refl;
  inited = λ j e. e;
  max = refl;
}

InitsOnly-trans : {w w' w'' : World} → InitsOnly w w' → InitsOnly w' w'' → InitsOnly w w''
InitsOnly-trans d e = record {
  idx_list = λ s. e.idx_list s ∙ d.idx_list s;
  ycs = λ s r. e.ycs s r ∙ d.ycs s r;
  flags = λ s. e.flags s ∙ d.flags s;
  slot = λ j. e.slot j ∙ d.slot j;
  finished = λ j. e.finished j ∙ d.finished j;
  handle = λ j. e.handle j ∙ d.handle j;
  init = λ j. e.init j ∙ d.init j;
  inited = λ j x. e.inited j (d.inited j x);
  max = e.max ∙ d.max;
}

init_from-InitsOnly : (L : Loader) (t n p : ℕ) (w : World) → InitsOnly w (init_from L t n p w)
unfolding init_from
init_from-InitsOnly L t zero p w = InitsOnly-refl w
init_from-InitsOnly L t (suc n) p w =
    InitsOnly-trans (init_at-InitsOnly L t p w)
      (init_from-InitsOnly L t n (p + 1) (init_at L t p w))

init_from_done :
    (L : Loader) (t n p q i : ℕ) (w : World)
    → p ≤ q
    → q < p + n
    → idx_at w t q ≡ some i
    → is_some (w.scav i).init ≡ true
    → ((init_from L t n p w).scav i).inited ≡ true
unfolding init_from
init_from_done L t zero p q i w lo hi e has = absurd (omega arith)
init_from_done L t (suc n) p q i w lo hi e has =
    let once = init_at-InitsOnly L t p w in
    elim (Bool-cases (p == q)) [
      | inl here ↦
          (init_from-InitsOnly L t n (p + 1) (init_at L t p w)).inited i
            (init_at_done L t p i w (ground arith) has)
      | inr later ↦
          init_from_done L t n (p + 1) q i (init_at L t p w) (ground arith) (omega arith)
            (ap (λ (l : ℕ → Option ℕ). l q) (once.idx_list t) ∙ e) (ap is_some (once.init i) ∙ has)
    ]

-- Whatever the functions `init` do to the contexts that they run on, every yield context, list and
-- owner is as before, and of the thread's scavengers each that has an `init` is marked.
pub call_init_lem :
    (L : Loader) (t : ℕ) (w : World)
    → InitsOnly w (call_init_for_new_scav L t w)
      × ((p i : ℕ)
          → 1 ≤ p
          → p ≤ max_crt_per_thread
          → idx_at w t p ≡ some i
          → is_some (w.scav i).init ≡ true
          → ((call_init_for_new_scav L t w).scav i).inited ≡ true)
unfolding call_init_for_new_scav
call_init_lem L t w = (
  init_from-InitsOnly L t max_crt_per_thread 1 w,
  λ p i lo hi e has. init_from_done L t max_crt_per_thread 1 p i w lo (omega arith) e has,
)

pub InitsOnly-Gain :
    {L : Loader} (t : ℕ) {w w' : World}
    → IsHosting w
    → IsLinked L w
    → InitsOnly w w'
    → Gain L t 0 w w'
InitsOnly-Gain t {w} {w'} h linked e = record {
  hosting = Same-IsHosting h (record {
    idx = λ s q. ap (λ (l : ℕ → Option ℕ). l q) (e.idx_list s);
    runs = λ s q lo. ap (λ (y : YieldCtx). not (is_minus_one y.normal_next)) (e.ycs s q);
    slot = e.slot;
    finished = e.finished;
    handle = e.handle;
  });
  linked = IsLinked-handle linked e.handle;
  count = ap hosted (e.idx_list t) ∙ omega arith;
  finished = e.finished;
  handle = e.handle;
  owned = λ j x. ap is_some (e.slot j) ∙ x;
  primary_sp = ap (λ (y : YieldCtx). y.sp) (e.ycs t 0);
  primary_ip = ap (λ (y : YieldCtx). y.ip) (e.ycs t 0);
  primary_runs = λ r. ap (λ (y : YieldCtx). not (is_minus_one y.normal_next)) (e.ycs t 0) ∙ r;
  packed = λ s p. subst IsPacked (sym (e.idx_list s)) p;
  flags = e.flags;
  max = e.max;
}
