-- ===== src/Cleanup/Prepare.antt =====
-- The first part of `msh_cleanup`, and the state in which the scavengers are run to completion.
use msh.Prelude.{
  ℕ, ◌*◌, ◌≤◌, ◌≡◌, inl, inr, refl, ap, ◌∙◌, sym, not, false, ◌==◌, ltb, if◌then◌else◌, for_each_in,
  for_each_lt, for_each_ge, is_minus_one, to_short_small, Bool-cases, arith,
}
use msh.Memory.{max_crt_per_thread, sizeof_yield_ctx, YieldCtx, CoroutineCtx, World, Loader}
use msh.NextMap.{has_next}
use msh.Hosting.{idx_at, runs_at, IsHosting}
use msh.Hosting.Steps.{Same, Same-IsHosting}
use msh.Symbols.Offsets.{SymbolsSet}
use msh.Symbols.Frame.{IsLinked, IsLinked-handle}
use msh.Allocate.{self_linked}
use msh.Schedule.Draining.{primary_over}
use msh.Cleanup.{link_to_self}

pub record IsDraining (L : Loader) (t : ℕ) (w : World) : Type 0 where
  pub hosting : IsHosting w
  pub linked : IsLinked L w
  pub over : has_next (w.prim t).ycs 0 ≡ false
  pub symbols : SymbolsSet L t w

abbrev self_link : ℕ → YieldCtx → YieldCtx
self_link p yc = if is_minus_one yc.normal_next then yc else self_linked p yc

self_link_runs :
    (p : ℕ) (yc : YieldCtx)
    → p ≤ max_crt_per_thread
    → not (is_minus_one (self_link p yc).normal_next) ≡ not (is_minus_one yc.normal_next)
self_link_runs p yc hi = ground (arith, to_short_small (p * sizeof_yield_ctx))

link_to_self_runs : (t s q : ℕ) (w : World) → runs_at (link_to_self t w) s q ≡ runs_at w s q
unfolding link_to_self
link_to_self_runs t s q w = elim (Bool-cases (t == s)) [
  | inr off ↦ ground arith
  | inl here ↦ elim (Bool-cases (ltb max_crt_per_thread q)) [
    | inl beyond ↦
        ground (arith, for_each_ge max_crt_per_thread 1 self_link (w.prim t).ycs q (ground arith))
    | inr inside ↦ elim (Bool-cases (q == 0)) [
      | inl primary ↦
          ground (arith, for_each_lt max_crt_per_thread 1 self_link (w.prim t).ycs q (ground arith))
      | inr scavenger ↦ ground (
        arith,
        for_each_in max_crt_per_thread 1 self_link (w.prim t).ycs q (ground arith) (ground arith),
        self_link_runs q ((w.prim t).ycs q),
      )
    ]
  ]
]

link_to_self_idx : (t s q : ℕ) (w : World) → idx_at (link_to_self t w) s q ≡ idx_at w s q
unfolding link_to_self
link_to_self_idx t s q w = ground arith

link_to_self_rest :
    (t : ℕ) (w : World) → ((link_to_self t w).scav ≡ w.scav) × ((link_to_self t w).ints ≡ w.ints)
unfolding link_to_self
link_to_self_rest t w = (refl, refl)

-- The lists are as before when the loop is done and the primary is marked.
pub prepared-Same : (t : ℕ) (w : World) → Same w (primary_over t (link_to_self t w))
prepared-Same t w = record {
  idx = λ s q. ground (arith, link_to_self_idx t s q w);
  runs = λ s q lo. ground (arith, link_to_self_runs t s q w);
  slot = λ j. ap (λ (f : ℕ → CoroutineCtx). (f j).yc) (link_to_self_rest t w).0;
  finished = λ j. ap (λ (f : ℕ → CoroutineCtx). (f j).finished) (link_to_self_rest t w).0;
  handle = λ j. ap (λ (f : ℕ → CoroutineCtx). (f j).lib_handle) (link_to_self_rest t w).0;
}

pub link_to_self-Same : (t : ℕ) (w : World) → Same w (link_to_self t w)
link_to_self-Same t w = record {
  idx = λ s q. link_to_self_idx t s q w;
  runs = λ s q lo. link_to_self_runs t s q w;
  slot = λ j. ap (λ (f : ℕ → CoroutineCtx). (f j).yc) (link_to_self_rest t w).0;
  finished = λ j. ap (λ (f : ℕ → CoroutineCtx). (f j).finished) (link_to_self_rest t w).0;
  handle = λ j. ap (λ (f : ℕ → CoroutineCtx). (f j).lib_handle) (link_to_self_rest t w).0;
}

-- The flags stay, and the contexts of the other threads with all that is in them.
pub record Quiet (t : ℕ) (w w' : World) : Type 0 where
  pub flags : (s : ℕ) → (w'.prim s).reallocatable ≡ (w.prim s).reallocatable
  pub contexts : (s : ℕ) → (t == s) ≡ false → w'.prim s ≡ w.prim s

pub link_to_self-Quiet : (t : ℕ) (w : World) → Quiet t w (link_to_self t w)
unfolding link_to_self
link_to_self-Quiet t w = record { flags = λ s. ground arith; contexts = λ s off. ground arith }

pub prepared-Quiet : (t : ℕ) (w : World) → Quiet t w (primary_over t (link_to_self t w))
prepared-Quiet t w = record {
  flags = λ s. ground (arith, (link_to_self-Quiet t w).flags s);
  contexts = λ s off. ground (arith, (link_to_self-Quiet t w).contexts s off);
}

pub prepared-IsDraining :
    (L : Loader) (t : ℕ) (w : World)
    → IsHosting w
    → IsLinked L w
    → SymbolsSet L t w
    → IsDraining L t (primary_over t (link_to_self t w))
prepared-IsDraining L t w h linked symbols = record {
  hosting = Same-IsHosting h (prepared-Same t w);
  linked = IsLinked-handle linked (prepared-Same t w).handle;
  over = ground arith;
  symbols = λ p i g x lo hi was loaded has.
      ap (λ (f : ℕ → ℕ). f x) (link_to_self_rest t w).1
      ∙ symbols p i g x lo hi (sym ((prepared-Same t w).idx t p) ∙ was)
          (sym ((prepared-Same t w).handle i) ∙ loaded) has;
}
