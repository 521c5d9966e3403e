-- ===== src/Allocate/Offsets.antt =====
-- The `crt_pos` of the scavengers after an allocation that takes none from another thread.
use mathlib.Core.Path.{subst}
use msh.Prelude.{
  ok_second, ok_some, ℕ, zero, suc, ◌+◌, ◌≡◌, ◌≢◌, inl, inr, refl, ap, ◌∙◌, sym, true, false, ◌==◌,
  leb, Option, some, Outcome, ok, ◌>>=◌, bind_ok, Bool-cases, arith,
}
use msh.Memory.{
  max_crt_per_thread, max_thread_num, max_active_crt_num, CoroutineCtx, World, put_prim, Loader,
}
use msh.IdxList.{push_back, need_more_scav}
use msh.IdxList.Ends.{Pushed, push_back_cases}
use msh.NextMap.{set_special_next}
use msh.NextMap.Ring.{idx_list-set_special_next}
use msh.Hosting.{idx_at, IsHosting}
use msh.Symbols.{set_scav_symbol}
use msh.Symbols.Frame.{
  IsLinked, IsLinked-handle, set_scav_symbol_returns, set_scav_symbol-SameTables,
}
use msh.Symbols.Offsets.{
  SymbolsSet, IsApart, IsSeparate, set_scav_symbol-own, set_scav_symbol-other,
}
use msh.Allocate.{
  available, attach_pushed, from_threads, from_pool, allocate_demanded, init_at, init_from,
  call_init_for_new_scav, allocate_scav,
}
use msh.Allocate.Pool.{from_pool_skip, from_pool_full, from_pool_take}
use msh.Allocate.Attach.{placed, own, available_lem, attach, attach_pushed_lem}
use msh.Allocate.Inits.{call_init_lem}

-- What the thread hosts, and how it is marked.
pub record IsSettled (L : Loader) (t : ℕ) (w : World) : Type 0 where
  pub hosting : IsHosting w
  pub linked : IsLinked L w
  pub separate : IsSeparate w
  pub symbols : SymbolsSet L t w

module _ (L : Loader) (apart : IsApart L) (t : ℕ) where
  module _ (i p : ℕ) (w : World) (s : IsSettled L t w) (free : available (w.scav i) ≡ true)
      (pushed : Pushed (w.prim t).idx_list (max_crt_per_thread + 1) i p) where
    after_own : (j : ℕ) (v : World) → (v.scav j).lib_handle ≡ ((own t p i v).scav j).lib_handle
    after_own j v = ground arith

    attached-SymbolsSet :
        (w3 : World)
        → set_scav_symbol L t i p (placed L t p i w) ≡ ok w3
        → SymbolsSet L t (own t p i w3)
    attached-SymbolsSet w3 set q j g x lo hi at_ loaded here =
        let same = set_scav_symbol-SameTables L t i p (placed L t p i w) w3 set in
        let there : idx_at (own t p i (placed L t p i w)) t q ≡ some j =
          ap (λ (l : ℕ → Option ℕ). l q) (sym (same.idx_list t)) ∙ at_ in
        let slot = (attach L t i p w s.hosting s.linked free pushed).idx t q in
        let object : (w.scav j).lib_handle ≡ some g =
          ap (λ (f : ℕ → CoroutineCtx). (f j).lib_handle) (sym same.scav)
          ∙ after_own j w3
          ∙ loaded in
        let linked = IsLinked-handle {w' = placed L t p i w} s.linked (λ k. refl) in
        let (has, unhosted, unfinished) = available_lem (w.scav i) free in
        elim (Bool-cases (p == q)) [
          | inl same_place ↦
              let it : i ≡ j = ground (arith, slot) in
              set_scav_symbol-own L apart t i p g (placed L t p i w) w3 linked
                (subst (λ k. (w.scav k).lib_handle ≡ some g) (sym it) object) set x here
              ∙ ground arith
          | inr off ↦
              let was : idx_at w t q ≡ some j = ground (arith, slot) in
              let host = s.hosting.host t q j lo hi was in
              let apart_ : g ≢ has.0 =
                (λ e. absurd (ground (arith, s.separate i j has.0 has.1 (object ∙ ap some e)))) in
              set_scav_symbol-other L apart t i p has.0 (placed L t p i w) w3 linked has.1 set g x
                apart_ here
              ∙ s.symbols q j g x lo hi was object here
        ]

    -- The entry is attached, and its `crt_pos` is set.
    attach_pushed-IsSettled :
        (w' : World) × (attach_pushed L t i w
            (push_back (w.prim t).idx_list (max_crt_per_thread + 1) i)
          ≡ ok (some w'))
        × IsSettled L t w'
    unfolding attach_pushed
    attach_pushed-IsSettled =
        let (has, unhosted, unfinished) = available_lem (w.scav i) free in
        let (w3, set) =
          set_scav_symbol_returns L t i p has.0 (placed L t p i w)
            (IsLinked-handle s.linked (λ k. refl)) has.1 in
        let same = set_scav_symbol-SameTables L t i p (placed L t p i w) w3 set in
        let (w1, e, gain, taken_up) = attach_pushed_lem L t i p w s.hosting s.linked free pushed in
        let ran =
          ap (attach_pushed L t i w) pushed.result
          ∙ ap (λ (m : Outcome World). m >>= λ v. ok (some (own t p i v))) set in
        let it : w1 ≡ own t p i w3 =
          ok_some (sym e ∙ ap (λ (m : Outcome World). m >>= λ v. ok (some (own t p i v))) set) in
        let object = λ (j g : ℕ) (x : ((own t p i w3).scav j).lib_handle ≡ some g).
          (ap (λ (f : ℕ → CoroutineCtx). (f j).lib_handle) (sym same.scav) ∙ after_own j w3 ∙ x) in
        (
          own t p i w3,
          ran,
          record {
            hosting = subst IsHosting it gain.hosting;
            linked = subst (IsLinked L) it gain.linked;
            separate = λ j k g x y. s.separate j k g (object j g x) (object k g y);
            symbols = attached-SymbolsSet w3 set;
          },
        )

  from_pool-IsSettled :
      (demands n i ret r : ℕ) (w w' : World)
      → IsSettled L t w
      → from_pool L t demands n i ret w ≡ ok (r, w')
      → IsSettled L t w'
  unfolding from_pool
  from_pool-IsSettled demands zero i ret r w w' s e = subst (IsSettled L t) (ok_second e) s
  from_pool-IsSettled demands (suc n) i ret r w w' s e = elim (Bool-cases (available (w.scav i))) [
    | inr busy ↦
        from_pool-IsSettled demands n (i + 1) ret r w w' s
          (sym (from_pool_skip L t demands n i ret w busy) ∙ e)
    | inl free ↦
        elim (push_back_cases (w.prim t).idx_list (max_crt_per_thread + 1) i (omega arith)) [
          | inl full ↦
              subst (IsSettled L t)
                (ok_second (sym (from_pool_full L t demands n i ret w free full.result) ∙ e)) s
          | inr (p, pushed) ↦
              let (w1, ran, s1) = attach_pushed-IsSettled i p w s free pushed in
              let step = sym (from_pool_take L t demands n i ret w w1 free ran) ∙ e in
              elim (Bool-cases (leb demands (ret + 1))) [
                | inl enough ↦ subst (IsSettled L t) (ok_second (rw enough at step)) s1
                | inr wanting ↦
                    from_pool-IsSettled demands n (i + 1) (ret + 1) r w1 w' s1 (rw wanting at step)
              ]
        ]
  ]

  -- No thread is in a blockable call.
  from_threads_idle :
      (demands n s ret : ℕ) (w : World)
      → ((s : ℕ) → (w.prim s).reallocatable ≡ false)
      → from_threads L t demands n s ret w ≡ ok (false, ret, w)
  unfolding from_threads
  from_threads_idle demands zero s ret w idle = refl
  from_threads_idle demands (suc n) s ret w idle =
      rw (from_threads, idle s) (from_threads_idle demands n (s + 1) ret w idle)

  init_at-ints : (p : ℕ) (w : World) → (init_at L t p w).ints ≡ w.ints
  unfolding init_at
  init_at-ints p w = ground arith

  init_from-ints : (n p : ℕ) (w : World) → (init_from L t n p w).ints ≡ w.ints
  unfolding init_from
  init_from-ints zero p w = refl
  init_from-ints (suc n) p w = init_from-ints n (p + 1) (init_at L t p w) ∙ init_at-ints p w

  inits-SymbolsSet : (w : World) → SymbolsSet L t w → SymbolsSet L t (call_init_for_new_scav L t w)
  unfolding call_init_for_new_scav
  inits-SymbolsSet w symbols p i g x lo hi at_ loaded here =
      let inits = (call_init_lem L t w).0 in
      ap (λ (f : ℕ → ℕ). f x) (init_from-ints max_crt_per_thread 1 w)
      ∙ symbols p i g x lo hi (ap (λ (l : ℕ → Option ℕ). l p) (sym (inits.idx_list t)) ∙ at_)
          (sym (inits.handle i) ∙ loaded) here

  special-SymbolsSet :
      (w : World) → SymbolsSet L t w → SymbolsSet L t (put_prim t (set_special_next (w.prim t)) w)
  special-SymbolsSet w symbols p i g x lo hi at_ loaded here =
      symbols p i g x lo hi (ground (arith, idx_list-set_special_next (w.prim t))) loaded here

  -- While no thread is in a blockable call, an allocation leaves every scavenger of the thread with
  -- the offset of its position in its `crt_pos`, if the scavengers that the thread had already have
  -- that, the variables of the objects do not overlap, and no two entries share an object.
  pub allocate_scav-SymbolsSet :
      (r : ℕ) (w w' : World)
      → IsSettled L t w
      → ((s : ℕ) → (w.prim s).reallocatable ≡ false)
      → allocate_scav L t w ≡ ok (r, w')
      → SymbolsSet L t w'
  unfolding allocate_scav allocate_demanded
  allocate_scav-SymbolsSet r w w' s idle e = elim (Bool-cases (counts == 0)) [
    | inl none_ ↦ subst (SymbolsSet L t) (ok_second (rw none_ at e)) s.symbols
    | inr wanting ↦
        let run = rw (wanting, from_threads_idle counts max_thread_num 0 0 w idle) at e in
        let ((ret, w1), pool, rest) =
          bind_ok (from_pool L t counts max_active_crt_num 0 0 w) finish (r, w') run in
        let s1 = from_pool-IsSettled counts max_active_crt_num 0 0 ret w w1 s pool in
        subst (SymbolsSet L t) (ok_second rest)
          (special-SymbolsSet (call_init_for_new_scav L t w1) (inits-SymbolsSet w1 s1.symbols))
  ]
    where
      counts : ℕ
      counts = need_more_scav w.max_scav_per_thread (w.prim t).idx_list

      finish : ℕ × World → Outcome (ℕ × World)
      finish (ret, w1) =
          let w2 = call_init_for_new_scav L t w1 in
          ok (ret, put_prim t (set_special_next (w2.prim t)) w2)
