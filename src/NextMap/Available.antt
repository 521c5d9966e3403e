-- ===== src/NextMap/Available.antt =====
-- Where `tl_update_next_map` points the primary.
use msh.Prelude.{
  ℕ, ◌*◌, ◌<◌, ◌≤◌, ◌≡◌, ◌⊎◌, inl, inr, refl, ap, ◌∙◌, sym, true, false, not, update, pos,
  is_minus_one, to_short_small, first_pos_cases, arith, Bool-cases,
}
use msh.Memory.{sizeof_yield_ctx, max_crt_per_thread, YieldCtx, PrimaryCtx}
use msh.NextMap.{has_next, next_available_crt, update_next_map}

pub record IsNext (ycs : ℕ → YieldCtx) (p : ℕ) : Type 0 where
  pub lower : 1 ≤ p
  pub upper : p ≤ max_crt_per_thread
  pub holds : has_next ycs p ≡ true
  pub before : (q : ℕ) → 1 ≤ q → q < p → has_next ycs q ≡ false
  pub result : next_available_crt ycs ≡ p

pub record NoNext (ycs : ℕ → YieldCtx) : Type 0 where
  pub nowhere : (q : ℕ) → 1 ≤ q → q ≤ max_crt_per_thread → has_next ycs q ≡ false
  pub result : next_available_crt ycs ≡ 0

pub available_cases : (ycs : ℕ → YieldCtx) → NoNext ycs ⊎ ((p : ℕ) × IsNext ycs p)
unfolding next_available_crt
available_cases ycs = elim (first_pos_cases (has_next ycs) max_crt_per_thread 1) [
  | inl (e, miss) ↦
      inl (record {
        nowhere = λ q lo hi. miss q lo (omega arith);
        result = rw (e, next_available_crt);
      })
  | inr (p, e, hit) ↦ inr (
    p,
    record {
      lower = hit.lower;
      upper = omega (arith, hit.upper);
      holds = hit.holds;
      before = hit.before;
      result = rw (e, next_available_crt);
    },
  )
]

pub next_available-le : (ycs : ℕ → YieldCtx) → next_available_crt ycs ≤ max_crt_per_thread
next_available-le ycs = elim (available_cases ycs) [
  | inl n ↦ omega (arith, n.result)
  | inr (p, n) ↦ omega (arith, n.result, n.upper)
]

-- A finished primary is left alone.
pub update_next_map_finished :
    (c : PrimaryCtx) → is_minus_one (c.ycs 0).normal_next ≡ true → update_next_map c ≡ c
unfolding update_next_map
update_next_map_finished c h = rw h

pub update_next_map_running :
    (c : PrimaryCtx)
    → is_minus_one (c.ycs 0).normal_next ≡ false
    → update_next_map c ≡ record c {
      ycs =
          update c.ycs 0
            (record (c.ycs 0) { normal_next = pos (sizeof_yield_ctx * next_available_crt c.ycs) });
    }
unfolding update_next_map
update_next_map_running c h = rw (
  h,
  to_short_small (sizeof_yield_ctx * next_available_crt c.ycs)
      (omega (arith, next_available-le c.ycs)),
)

pub update_next_map_ne : (c : PrimaryCtx) (p : ℕ) → 1 ≤ p → (update_next_map c).ycs p ≡ c.ycs p
unfolding update_next_map
update_next_map_ne c p h = elim (Bool-cases (is_minus_one (c.ycs 0).normal_next)) [
  | inl e ↦ rw e
  | inr e ↦ rw e (ground arith)
]

pub idx_list-update_next_map : (c : PrimaryCtx) → (update_next_map c).idx_list ≡ c.idx_list
unfolding update_next_map
idx_list-update_next_map c = ground arith

-- The primary yields to the first scavenger that is not finished, or to itself if there is none.
pub record Pointed (ycs : ℕ → YieldCtx) : Type 0 where
  pub place : ℕ
  pub link : (ycs 0).normal_next ≡ pos (sizeof_yield_ctx * place)
  pub upper : place ≤ max_crt_per_thread
  pub before : (q : ℕ) → 1 ≤ q → q < place → has_next ycs q ≡ false
  pub holds :
      ((1 ≤ place) × (has_next ycs place ≡ true))
      ⊎ ((place ≡ 0) × ((q : ℕ) → 1 ≤ q → q ≤ max_crt_per_thread → has_next ycs q ≡ false))

pub update_next_map-Pointed :
    (c : PrimaryCtx) → is_minus_one (c.ycs 0).normal_next ≡ false → Pointed (update_next_map c).ycs
update_next_map-Pointed c running = elim (available_cases c.ycs) [
  | inl n ↦ record {
    place = 0;
    link = rw (update_next_map_running c running, n.result) refl;
    upper = omega arith;
    before = λ q lo hi. absurd (omega arith);
    holds = inr (refl, λ q lo hi. kept q lo ∙ n.nowhere q lo hi);
  }
  | inr (p, n) ↦ record {
    place = p;
    link = rw (update_next_map_running c running, n.result) refl;
    upper = n.upper;
    before = λ q lo hi. kept q lo ∙ n.before q lo hi;
    holds = inl (n.lower, kept p n.lower ∙ n.holds);
  }
]
  where
    kept : (q : ℕ) → 1 ≤ q → has_next (update_next_map c).ycs q ≡ has_next c.ycs q
    kept q lo = ap (λ (y : YieldCtx). not (is_minus_one y.normal_next)) (update_next_map_ne c q lo)

-- The primary's saved context, and the fields beside the contexts.
pub update_next_map_rest :
    (c : PrimaryCtx)
    → (((update_next_map c).ycs 0).sp ≡ (c.ycs 0).sp)
      × (((update_next_map c).ycs 0).ip ≡ (c.ycs 0).ip)
      × (has_next (update_next_map c).ycs 0 ≡ has_next c.ycs 0)
      × ((update_next_map c).reallocatable ≡ c.reallocatable)
      × ((update_next_map c).reallocated ≡ c.reallocated)
      × ((update_next_map c).regs ≡ c.regs)
update_next_map_rest c = elim (Bool-cases (is_minus_one (c.ycs 0).normal_next)) [
  | inl e ↦ rw (update_next_map_finished c e) (refl, refl, refl, refl, refl, refl)
  | inr e ↦ rw (update_next_map_running c e) (refl, refl, sym (ap not e), refl, refl, refl)
]
