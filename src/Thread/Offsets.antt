-- ===== src/Thread/Offsets.antt =====
-- The `crt_pos` of the scavengers after `msh_alloc_ctx`.
use mathlib.Core.Path.{subst}
use msh.Prelude.{
  ok_second, ℕ, ◌≡◌, inl, inr, refl, false, ltb, ℤ, pos, Outcome, ok, bind_ok, Bool-cases, arith,
}
use msh.Memory.{max_thread_num, World, Loader}
use msh.Hosting.Steps.{Same-IsHosting}
use msh.Symbols.Frame.{IsLinked-handle}
use msh.Symbols.Offsets.{SymbolsSet, IsApart}
use msh.Allocate.{allocate_scav}
use msh.Allocate.Offsets.{IsSettled, allocate_scav-SymbolsSet}
use msh.Thread.{init_primary_ctx, at_primary, alloc_ctx}
use msh.Thread.Start.{at_primary-Same}

at_primary-IsSettled :
    {L : Loader} (t : ℕ) (w : World) → IsSettled L t w → IsSettled L t (at_primary t w)
at_primary-IsSettled t w s = record {
  hosting = Same-IsHosting s.hosting (at_primary-Same t w);
  linked = IsLinked-handle s.linked (λ j. refl);
  separate = s.separate;
  symbols = s.symbols;
}

init_primary_ctx-SymbolsSet :
    (L : Loader) (t n : ℕ) (w : World) → SymbolsSet L t w → SymbolsSet L t (init_primary_ctx t n w)
unfolding init_primary_ctx
init_primary_ctx-SymbolsSet L t n w symbols p i g x lo hi at_ loaded here =
    symbols p i g x lo hi (ground arith) loaded here

-- A thread that starts while none is in a blockable call has, after `msh_alloc_ctx`, the offset of
-- its position in the `crt_pos` of each of its scavengers, if that holds of those that it had, the
-- variables of the objects do not overlap, and no two entries of the pool share an object.
pub alloc_ctx-SymbolsSet :
    (L : Loader) (t : ℕ) (r : ℤ) (w w' : World)
    → IsApart L
    → IsSettled L t w
    → ((s : ℕ) → (w.prim s).reallocatable ≡ false)
    → alloc_ctx L t w ≡ ok (r, w')
    → SymbolsSet L t w'
unfolding alloc_ctx
alloc_ctx-SymbolsSet L t r w w' apart s idle e = elim (Bool-cases (ltb t max_thread_num)) [
  | inr out ↦ subst (SymbolsSet L t) (ok_second (rw out at e)) s.symbols
  | inl in_ ↦
      let ((cnt, w1), given, rest) =
        bind_ok (allocate_scav L t (at_primary t w)) finish (r, w') (rw in_ at e) in
      subst (SymbolsSet L t) (ok_second rest) (
        init_primary_ctx-SymbolsSet L t cnt w1 (
          allocate_scav-SymbolsSet L apart t cnt (at_primary t w) w1 (at_primary-IsSettled t w s)
            idle given))
]
  where
    finish : ℕ × World → Outcome (ℤ × World)
    finish (cnt, w1) = ok (pos 0, init_primary_ctx t cnt w1)
