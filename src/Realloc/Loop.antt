-- ===== src/Realloc/Loop.antt =====
-- `realloc_scav` as a whole.
use msh.Prelude.{ℕ, zero, suc, ◌+◌, ◌≤◌, ◌≡◌, ◌≢◌, inl, inr, ap, ◌∙◌, ok, arith}
use msh.Memory.{World, Loader}
use msh.IdxList.Ends.{IsPacked}
use msh.Hosting.{IsHosting}
use msh.Hosting.Gain.{Gain, Gain-refl, Gain-trans}
use msh.Symbols.Frame.{IsLinked}
use msh.Realloc.{realloc_scav}
use msh.Realloc.Round.{realloc_one_cases, TurnOf-cases}

-- In consistent tables with every object linked, taking scavengers from another thread, whose list
-- is packed, returns. It takes at most as many as are demanded, and the
-- count that it adds to `ret` is the number by which the caller's scavengers grow.
pub realloc_scav_lem :
    (L : Loader) (f t n ret : ℕ) (w : World)
    → f ≢ t
    → IsHosting w
    → IsLinked L w
    → IsPacked (w.prim f).idx_list
    → (k : ℕ) × (w' : World) × (realloc_scav L f t n ret w ≡ ok (ret + k, w'))
      × (k ≤ n)
      × Gain L t k w w'
unfolding realloc_scav
realloc_scav_lem L f t zero ret w ne h linked packed =
    (0, w, ap (λ r. ok (r, w)) (omega arith), omega arith, Gain-refl h linked)
realloc_scav_lem L f t (suc n) ret w ne h linked packed =
    elim (TurnOf-cases (realloc_one_cases L f t w ne h linked packed)) [
      | inl e ↦ (0, w, rw e (ap (λ r. ok (r, w)) (omega arith)), omega arith, Gain-refl h linked)
      | inr (w1, e, gain) ↦
          let (k, w2, e2, bound, gain2) =
            realloc_scav_lem L f t n (ret + 1) w1 ne gain.hosting gain.linked
              (gain.packed f packed) in
          (
            suc k,
            w2,
            rw e (e2 ∙ ap (λ r. ok (r, w2)) (omega arith)),
            omega (arith, bound),
            Gain-trans gain gain2 (omega arith),
          )
    ]
