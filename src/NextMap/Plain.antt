-- ===== src/NextMap/Plain.antt =====
-- The links of the scavengers of a thread whose primary goes on: each is to the primary, or is the
-- mark of a finished one.
use mathlib.Core.Path.{subst}
use msh.Prelude.{
  ℕ, ◌≤◌, ◌≡◌, inl, inr, ap, ◌∙◌, sym, true, false, not, ◌==◌, update, pos, is_minus_one, ==→eq,
  Bool-cases, arith,
}
use msh.Memory.{max_crt_per_thread, YieldCtx, PrimaryCtx, World, put_prim}
use msh.NextMap.{set_special_next, has_next, update_next_map}
use msh.NextMap.Ring.{set_special_next_normal}
use msh.NextMap.Available.{update_next_map_ne}

abbrev pub IsPlain : (ℕ → YieldCtx) → Type 0
IsPlain ycs =
    (p : ℕ) → 1 ≤ p → p ≤ max_crt_per_thread → has_next ycs p ≡ true → (ycs p).normal_next ≡ pos 0

-- Contexts with the same links.
pub IsPlain-congr :
    (ycs ycs' : ℕ → YieldCtx)
    → ((p : ℕ) → 1 ≤ p → (ycs' p).normal_next ≡ (ycs p).normal_next)
    → IsPlain ycs
    → IsPlain ycs'
IsPlain-congr ycs ycs' same plain p lo hi runs =
    same p lo ∙ plain p lo hi (ap (λ n. not (is_minus_one n)) (sym (same p lo)) ∙ runs)

pub IsPlain-update :
    (ycs : ℕ → YieldCtx) (q : ℕ) (yc : YieldCtx)
    → (is_minus_one yc.normal_next ≡ false → yc.normal_next ≡ pos 0)
    → IsPlain ycs
    → IsPlain (update ycs q yc)
IsPlain-update ycs q yc given plain p lo hi runs = elim (Bool-cases (q == p)) [
  | inl here ↦ rw here (given (ground arith))
  | inr there ↦ rw there (plain p lo hi (ground arith))
]

pub IsPlain-primary : (ycs : ℕ → YieldCtx) (yc : YieldCtx) → IsPlain ycs → IsPlain (update ycs 0 yc)
IsPlain-primary ycs yc = IsPlain-congr ycs (update ycs 0 yc) (λ p lo. ground arith)

pub update_next_map-IsPlain : (c : PrimaryCtx) → IsPlain c.ycs → IsPlain (update_next_map c).ycs
update_next_map-IsPlain c =
    IsPlain-congr c.ycs (update_next_map c).ycs
      (λ p lo. ap (λ (y : YieldCtx). y.normal_next) (update_next_map_ne c p lo))

pub set_special_next-IsPlain : (c : PrimaryCtx) → IsPlain c.ycs → IsPlain (set_special_next c).ycs
set_special_next-IsPlain c =
    IsPlain-congr c.ycs (set_special_next c).ycs (λ p lo. set_special_next_normal c p)

-- A context that is stored, as thread `s` sees it.
pub put_prim-IsPlain :
    (t s : ℕ) (c : PrimaryCtx) (w : World)
    → (t ≡ s → IsPlain c.ycs)
    → IsPlain (w.prim s).ycs
    → IsPlain ((put_prim t c w).prim s).ycs
put_prim-IsPlain t s c w own plain = elim (Bool-cases (t == s)) [
  | inl here ↦ subst IsPlain (ycs_here here) (own (==→eq t s here))
  | inr there ↦ subst IsPlain (ycs_there there) plain
]
  where
    ycs_here : (t == s) ≡ true → c.ycs ≡ ((put_prim t c w).prim s).ycs
    ycs_here e = ground arith

    ycs_there : (t == s) ≡ false → (w.prim s).ycs ≡ ((put_prim t c w).prim s).ycs
    ycs_there e = ground arith
