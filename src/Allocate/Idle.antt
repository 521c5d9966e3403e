-- ===== src/Allocate/Idle.antt =====
-- Allocations while no thread is in a blockable call.
use msh.Prelude.{ℕ, ◌≡◌, refl, ap, ◌∙◌, false, some, ok, arith}
use msh.Memory.{CoroutineCtx, World, put_prim, put_scav, yield_ptr, Loader}
use msh.IdxList.{IdxList}
use msh.NextMap.{set_special_next}
use msh.NextMap.Ring.{set_special_next_flag}
use msh.Symbols.Frame.{set_scav_symbol-SameTables}
use msh.Allocate.{init_at, allocate_scav}
use msh.Allocate.Kept.{set_up, IsKept, allocate_scav-kept}

-- No flag is up.
abbrev pub AllDown : World → Type 0
AllDown w = (s : ℕ) → (w.prim s).reallocatable ≡ false

-- The flags stay down, and the objects stay loaded.
pub record StaysIdle (w w' : World) : Type 0 where
  pub down : AllDown w'
  pub handle : (j : ℕ) → (w'.scav j).lib_handle ≡ (w.scav j).lib_handle

pub StaysIdle-chain :
    {w w' w'' : World}
    → (AllDown w → StaysIdle w w')
    → (AllDown w' → StaysIdle w' w'')
    → AllDown w
    → StaysIdle w w''
StaysIdle-chain a b down =
    let first = a down in
    let second = b first.down in
    record { down = second.down; handle = λ j. second.handle j ∙ first.handle j }

-- A step that writes neither.
pub StaysIdle-same :
    (w w' : World)
    → ((s : ℕ) → (w'.prim s).reallocatable ≡ (w.prim s).reallocatable)
    → ((j : ℕ) → (w'.scav j).lib_handle ≡ (w.scav j).lib_handle)
    → AllDown w
    → StaysIdle w w'
StaysIdle-same w w' flags handle down = record { down = λ s. flags s ∙ down s; handle = handle }

module _ (L : Loader) (t : ℕ) where
  set_up_idle : (i p : ℕ) (m : IdxList) (w : World) → AllDown w → StaysIdle w (set_up L t i p m w)
  unfolding set_up
  set_up_idle i p m w =
      StaysIdle-same w (set_up L t i p m w) (λ s. ground arith) (λ j. ground arith)

  init_at_idle : (p : ℕ) (w : World) → AllDown w → StaysIdle w (init_at L t p w)
  unfolding init_at
  init_at_idle p w = StaysIdle-same w (init_at L t p w) (λ s. ground arith) (λ j. ground arith)

  owned_idle :
      (i p : ℕ) (w : World)
      → AllDown w
      → StaysIdle w (put_scav i (record (w.scav i) { yc = some (yield_ptr t p) }) w)
  owned_idle i p w = StaysIdle-same w _ (λ s. refl) (λ j. ground arith)

  idle-IsKept : IsKept L t (λ w w'. AllDown w → StaysIdle w w')
  idle-IsKept = record {
    same = λ w. StaysIdle-same w w (λ s. refl) (λ j. refl);
    chain = StaysIdle-chain;
    taken = λ k demands cnt w v up taken down. absurd (ground (arith, down k));
    new = set_up_idle;
    symbols = λ i p w w' e.
        let same = set_scav_symbol-SameTables L t i p w w' e in
        StaysIdle-same w w' same.reallocatable
          (λ j. ap (λ (f : ℕ → CoroutineCtx). (f j).lib_handle) same.scav);
    owned = owned_idle;
    init = init_at_idle;
    special = λ w.
        StaysIdle-same w (put_prim t (set_special_next (w.prim t)) w)
          (λ s. ground (arith, set_special_next_flag (w.prim t))) (λ j. refl);
  }

  pub allocate_scav-StaysIdle :
      (r : ℕ) (w w' : World) → allocate_scav L t w ≡ ok (r, w') → AllDown w → StaysIdle w w'
  allocate_scav-StaysIdle = allocate_scav-kept idle-IsKept
