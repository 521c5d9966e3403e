-- ===== src/NextMap/Primary.antt =====
-- A primary that goes on: its link is not the mark of a finished coroutine.
use msh.Prelude.{ℕ, ◌≡◌, inl, inr, ap, ◌∙◌, true, not, ◌==◌, is_minus_one, ==→eq, Bool-cases, arith}
use msh.Memory.{YieldCtx, PrimaryCtx, World, put_prim}
use msh.NextMap.{set_special_next, has_next, update_next_map}
use msh.NextMap.Ring.{set_special_next_normal}
use msh.NextMap.Available.{update_next_map_rest}

abbrev pub IsRunning : (ℕ → YieldCtx) → Type 0
IsRunning ycs = has_next ycs 0 ≡ true

pub update_next_map-IsRunning :
    (c : PrimaryCtx) → IsRunning c.ycs → IsRunning (update_next_map c).ycs
update_next_map-IsRunning c runs = let rest = update_next_map_rest c in rest.2 ∙ runs

pub set_special_next-IsRunning :
    (c : PrimaryCtx) → IsRunning c.ycs → IsRunning (set_special_next c).ycs
set_special_next-IsRunning c runs =
    ap (λ n. not (is_minus_one n)) (set_special_next_normal c 0) ∙ runs

-- A context that is stored, as thread `s` sees it.
pub put_prim-IsRunning :
    (t s : ℕ) (c : PrimaryCtx) (w : World)
    → (t ≡ s → IsRunning c.ycs)
    → IsRunning (w.prim s).ycs
    → IsRunning ((put_prim t c w).prim s).ycs
put_prim-IsRunning t s c w own runs = elim (Bool-cases (t == s)) [
  | inl here ↦ ground (arith, own (==→eq t s here))
  | inr there ↦ ground arith
]
