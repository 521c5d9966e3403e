-- ===== src/Symbols/Frame.antt =====
-- What the writes to a scavenger's variables leave alone, and when they are made.
use msh.Prelude.{false, ◌==◌, ℕ, ◌*◌, ◌≡◌, refl, sym, ◌∙◌, Option, none, some, ok, arith}
use msh.Memory.{sizeof_yield_ctx, CoroutineCtx, World, Loader, Symbol, argc, argv, crt_pos}
use msh.NextMap.{has_next}
use msh.Hosting.Steps.{Same}
use msh.Symbols.{
  require, put_int, put_argv, handle_of, unchecked, set_loop_counter, set_scav_symbol, move_symbol,
}

-- The two tables are the same but for the loop counters.
pub record SameTables (w w' : World) : Type 0 where
  pub scav : w'.scav ≡ w.scav
  pub idx_list : (t : ℕ) → (w'.prim t).idx_list ≡ (w.prim t).idx_list
  pub ycs : (t : ℕ) → (w'.prim t).ycs ≡ (w.prim t).ycs
  pub regs : (t : ℕ) → (w'.prim t).regs ≡ (w.prim t).regs
  pub reallocatable : (t : ℕ) → (w'.prim t).reallocatable ≡ (w.prim t).reallocatable
  pub max : w'.max_scav_per_thread ≡ w.max_scav_per_thread
  pub strays : w'.strays ≡ w.strays
  pub finished_cnt : w'.finished_scav_cnt ≡ w.finished_scav_cnt
  pub closed : w'.closed ≡ w.closed

pub SameTables-refl : (w : World) → SameTables w w
SameTables-refl w = record {
  scav = refl;
  idx_list = λ t. refl;
  ycs = λ t. refl;
  regs = λ t. refl;
  reallocatable = λ t. refl;
  max = refl;
  strays = refl;
  finished_cnt = refl;
  closed = refl;
}

pub SameTables-Same : {w w' : World} → SameTables w w' → Same w w'
SameTables-Same e = record {
  idx = λ s q. λ k. e.idx_list s k q;
  runs = λ s q lo. λ k. has_next (e.ycs s k) q;
  slot = λ j. λ k. (e.scav k j).yc;
  finished = λ j. λ k. (e.scav k j).finished;
  handle = λ j. λ k. (e.scav k j).lib_handle;
}

-- Every symbol that the runtime needs is in each loaded object.
pub record IsLinked (L : Loader) (w : World) : Type 0 where
  pub has :
      (i h : ℕ)
      → (w.scav i).lib_handle ≡ some h
      → ((a : ℕ) × (L.dlsym h argc ≡ some a))
        × ((a : ℕ) × (L.dlsym h argv ≡ some a))
        × ((a : ℕ) × (L.dlsym h crt_pos ≡ some a))

pub IsLinked-handle :
    {L : Loader} {w w' : World}
    → IsLinked L w
    → ((j : ℕ) → (w'.scav j).lib_handle ≡ (w.scav j).lib_handle)
    → IsLinked L w'
IsLinked-handle linked e = record { has = λ i h x. linked.has i h (sym (e i) ∙ x) }

module _ (L : Loader) where
  pub move_symbol-SameTables :
      (x : Option ℕ) (p : ℕ) (w w' : World) → move_symbol L x p w ≡ ok w' → SameTables w w'
  unfolding move_symbol
  move_symbol-SameTables none p w w' e = ground arith
  move_symbol-SameTables (some i) p w w' e = ground arith

  pub move_symbol_returns :
      (i p h : ℕ) (w : World)
      → IsLinked L w
      → (w.scav i).lib_handle ≡ some h
      → (w' : World) × (move_symbol L (some i) p w ≡ ok w')
  unfolding move_symbol
  move_symbol_returns i p h w linked e =
      let (a, b, c) = linked.has i h e in (put_int c.0 p w, ground (arith, e, c.1))

  pub set_scav_symbol_returns :
      (t i p h : ℕ) (w : World)
      → IsLinked L w
      → (w.scav i).lib_handle ≡ some h
      → (w' : World) × (set_scav_symbol L t i p w ≡ ok w')
  unfolding set_scav_symbol
  set_scav_symbol_returns t i p h w linked e =
      let (a, b, c) = linked.has i h e in
      (
        set_loop_counter L h t p (
            put_int c.0 (p * sizeof_yield_ctx)
              (put_argv b.0 (w.scav i).argv (put_int a.0 (w.scav i).argc w))),
        ground (arith, e, a.1, b.1, c.1),
      )

  pub set_scav_symbol-SameTables :
      (t i p : ℕ) (w w' : World) → set_scav_symbol L t i p w ≡ ok w' → SameTables w w'
  unfolding set_scav_symbol
  set_scav_symbol-SameTables t i p w w' e = ground arith

  -- What `tl_swap_crts` and `realloc_scav` leave in the scavenger's `crt_pos`.
  pub move_symbol-ints :
      (i p h a : ℕ) (w w' : World)
      → (w.scav i).lib_handle ≡ some h
      → L.dlsym h crt_pos ≡ some a
      → move_symbol L (some i) p w ≡ ok w'
      → w'.ints a ≡ p
  unfolding move_symbol
  move_symbol-ints i p h a w w' loaded has e = ground arith

  pub move_symbol-none : (p : ℕ) (w : World) → move_symbol L none p w ≡ ok w
  unfolding move_symbol
  move_symbol-none p w = refl

  pub handle_of_loaded : (s : CoroutineCtx) (g : ℕ) → s.lib_handle ≡ some g → handle_of s ≡ ok g
  unfolding handle_of
  handle_of_loaded s g e = rw (e, handle_of) refl

  pub unchecked_found : (g a : ℕ) (s : Symbol) → L.dlsym g s ≡ some a → unchecked L g s ≡ ok a
  unfolding unchecked
  unchecked_found g a s e = rw (e, unchecked) refl

  pub require_found : (g a : ℕ) (s : Symbol) → L.dlsym g s ≡ some a → require L g s ≡ ok a
  unfolding require
  require_found g a s e = rw (e, require) refl

  -- Whose context is written.
  pub move_symbol_prim :
      (x : Option ℕ) (p : ℕ) (w w' : World) → move_symbol L x p w ≡ ok w' → w'.prim ≡ w.prim
  unfolding move_symbol
  move_symbol_prim none p w w' e = ground arith
  move_symbol_prim (some i) p w w' e = ground arith

  pub set_scav_symbol_prim :
      (t i p s : ℕ) (w w' : World)
      → (t == s) ≡ false
      → set_scav_symbol L t i p w ≡ ok w'
      → w'.prim s ≡ w.prim s
  unfolding set_scav_symbol
  set_scav_symbol_prim t i p s w w' off e = ground arith
