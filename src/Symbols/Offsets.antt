-- ===== src/Symbols/Offsets.antt =====
-- The offsets that `set_scav_symbol` leaves in the scavengers' `crt_pos`.
use msh.Prelude.{ℕ, ◌*◌, ◌≤◌, ◌≡◌, ◌≢◌, some, ok, arith}
use msh.Memory.{
  max_crt_per_thread, sizeof_yield_ctx, World, Loader, argc, crt_pos, loop_counter_loc,
}
use msh.Hosting.{idx_at}
use msh.Symbols.Frame.{IsLinked}
use msh.Symbols.{handle_of, require, set_loop_counter, set_scav_symbol}

-- Each scavenger of `t` has the offset of its position in its `crt_pos`, as `set_scav_symbol`
-- leaves it.
abbrev pub SymbolsSet : Loader → ℕ → World → Type 0
SymbolsSet L t w =
    (p i g x : ℕ)
    → 1 ≤ p
    → p ≤ max_crt_per_thread
    → idx_at w t p ≡ some i
    → (w.scav i).lib_handle ≡ some g
    → L.dlsym g crt_pos ≡ some x
    → w.ints x ≡ p * sizeof_yield_ctx

-- The variables of the objects do not overlap: where one has its `crt_pos`, no other has its own,
-- and none has its `argc` or `loop_counter_loc`.
pub record IsApart (L : Loader) : Type 0 where
  pub own : (g h x : ℕ) → L.dlsym g crt_pos ≡ some x → L.dlsym h crt_pos ≡ some x → g ≡ h
  pub argc : (g h x : ℕ) → L.dlsym g crt_pos ≡ some x → L.dlsym h argc ≢ some x
  pub loop : (g h x : ℕ) → L.dlsym g crt_pos ≡ some x → L.dlsym h loop_counter_loc ≢ some x

-- No two entries of the pool share an object.
abbrev pub IsSeparate : World → Type 0
IsSeparate w = (i j h : ℕ) → (w.scav i).lib_handle ≡ some h → (w.scav j).lib_handle ≡ some h → i ≡ j

module _ (L : Loader) (apart : IsApart L) (t i p h : ℕ) (w w' : World) (linked : IsLinked L w)
    (loaded : (w.scav i).lib_handle ≡ some h) (set : set_scav_symbol L t i p w ≡ ok w') where
  -- The scavenger's own `crt_pos`.
  pub set_scav_symbol-own : (x : ℕ) → L.dlsym h crt_pos ≡ some x → w'.ints x ≡ p * sizeof_yield_ctx
  unfolding set_scav_symbol handle_of require set_loop_counter
  set_scav_symbol-own x at_ =
      ground (arith, apart.argc h h x at_, apart.loop h h x at_, linked.has i h loaded)

  -- That of another object.
  pub set_scav_symbol-other : (g x : ℕ) → g ≢ h → L.dlsym g crt_pos ≡ some x → w'.ints x ≡ w.ints x
  unfolding set_scav_symbol handle_of require set_loop_counter
  set_scav_symbol-other g x off at_ = ground (
    arith,
    apart.argc g h x at_,
    apart.loop g h x at_,
    apart.own g h x at_,
    linked.has i h loaded,
  )
