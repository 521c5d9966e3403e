-- ===== src/Allocate/Kept.antt =====
-- `allocate_scav` as a sequence of writes, for what every one of them leaves alone.
use mathlib.Core.Path.{subst}
use msh.Prelude.{
  ok_second, ok_some, ok_third, ℕ, zero, suc, ◌+◌, ◌≡◌, inl, inr, refl, ap, ◌∙◌, sym, Bool, true,
  false, ◌==◌, leb, Option, none, some, pos, Outcome, ok, bind_ok, Bool-cases,
}
use msh.Memory.{
  max_crt_per_thread, max_thread_num, max_active_crt_num, World, put_prim, put_list, put_yc,
  put_scav, yield_ptr, Loader,
}
use msh.IdxList.{IdxList, push_back, need_more_scav}
use msh.NextMap.{set_special_next}
use msh.Symbols.{set_scav_symbol}
use msh.Realloc.{realloc_scav}
use msh.Allocate.{
  available, initial_sp, set_flag, attach_pushed, from_threads, from_pool, allocate_demanded,
  init_at, init_from, call_init_for_new_scav, allocate_scav,
}
use msh.Allocate.Pool.{from_pool_skip}
use msh.Allocate.Donors.{from_threads_down}

-- The context of a new scavenger, before its symbols are written.
unfoldable pub set_up : Loader → ℕ → ℕ → ℕ → IdxList → World → World
set_up L t i p m w =
    let w1 = put_list t m w in
    put_yc t p
      (record ((w1.prim t).ycs p) {
        sp = initial_sp L i;
        ip = (w1.scav i).entry;
        normal_next = pos 0;
      })
      w1

-- A relation that every write of an allocation for thread `t` keeps; what is taken from one other
-- thread counts as one write.
pub record IsKept (L : Loader) (t : ℕ) (R : World → World → Type 0) : Type 0 where
  pub same : (w : World) → R w w
  pub chain : {w w' w'' : World} → R w w' → R w' w'' → R w w''
  pub taken :
      (k demands cnt : ℕ) (w v : World)
      → (w.prim k).reallocatable ≡ true
      → realloc_scav L k t demands 0 (set_flag k false w) ≡ ok (cnt, v)
      → R w (set_flag k true v)
  pub new : (i p : ℕ) (m : IdxList) (w : World) → R w (set_up L t i p m w)
  pub symbols : (i p : ℕ) (w w' : World) → set_scav_symbol L t i p w ≡ ok w' → R w w'
  pub owned :
      (i p : ℕ) (w : World) → R w (put_scav i (record (w.scav i) { yc = some (yield_ptr t p) }) w)
  pub init : (p : ℕ) (w : World) → R w (init_at L t p w)
  pub special : (w : World) → R w (put_prim t (set_special_next (w.prim t)) w)

module _ {L : Loader} {t : ℕ} {R : World → World → Type 0} (kept : IsKept L t R) where
  attach_pushed-kept :
      (i : ℕ) (w w' : World) (r : IdxList × Option ℕ)
      → attach_pushed L t i w r ≡ ok (some w')
      → R w w'
  unfolding attach_pushed set_up
  attach_pushed-kept i w w' (m, none) e = cc
  attach_pushed-kept i w w' (m, some p) e =
      let (v, set, rest) =
        bind_ok (set_scav_symbol L t i p (set_up L t i p m w)) (given i p) (some w') e in
      subst (R w) (ok_some rest) (
        kept.chain (kept.new i p m w)
          (kept.chain (kept.symbols i p (set_up L t i p m w) v set) (kept.owned i p v)))
    where
      given : ℕ → ℕ → World → Outcome (Option World)
      given i p v = ok (some (put_scav i (record (v.scav i) { yc = some (yield_ptr t p) }) v))

  after_attach :
      (demands ret r : ℕ) (w' : World) (again : World → Outcome (ℕ × World)) (w : World)
      (o : Option World)
      → ((v : World) → o ≡ some v → R w v)
      → ((v : World) → again v ≡ ok (r, w') → R v w')
      → (elim o as (λ x. Outcome (ℕ × World)) [
        | none ↦ ok (ret, w)
        | some v ↦ elim (leb demands (ret + 1)) as (λ x. Outcome (ℕ × World)) [
          | true ↦ ok (ret + 1, v)
          | false ↦ again v
        ]
      ])
        ≡ ok (r, w')
      → R w w'
  after_attach demands ret r w' again w none first rest e = subst (R w) (ok_second e) (kept.same w)
  after_attach demands ret r w' again w (some v) first rest e =
      elim (Bool-cases (leb demands (ret + 1))) [
        | inl enough ↦ subst (R w) (ok_second (rw enough at e)) (first v refl)
        | inr wanting ↦ kept.chain (first v refl) (rest v (rw wanting at e))
      ]

  from_pool-kept :
      (demands n i ret r : ℕ) (w w' : World) → from_pool L t demands n i ret w ≡ ok (r, w') → R w w'
  unfolding from_pool
  from_pool-kept demands zero i ret r w w' e = subst (R w) (ok_second e) (kept.same w)
  from_pool-kept demands (suc n) i ret r w w' e = elim (Bool-cases (available (w.scav i))) [
    | inr busy ↦
        from_pool-kept demands n (i + 1) ret r w w'
          (sym (from_pool_skip L t demands n i ret w busy) ∙ e)
    | inl free ↦
        let pushed = push_back (w.prim t).idx_list (max_crt_per_thread + 1) i in
        let (o, attached, rest) =
          bind_ok (attach_pushed L t i w pushed) _ (r, w') (rw (free, from_pool) at e) in
        after_attach demands ret r w' (from_pool L t demands n (i + 1) (ret + 1)) w o
          (λ v known. attach_pushed-kept i w v pushed (attached ∙ ap ok known))
          (λ v d. from_pool-kept demands n (i + 1) (ret + 1) r v w' d) rest
  ]

  from_threads-kept :
      (demands n k ret r : ℕ) (done : Bool) (w w' : World)
      → from_threads L t demands n k ret w ≡ ok (done, r, w')
      → R w w'
  unfolding from_threads
  from_threads-kept demands zero k ret r done w w' e = subst (R w) (ok_third e) (kept.same w)
  from_threads-kept demands (suc n) k ret r done w w' e =
      elim (Bool-cases (w.prim k).reallocatable) [
        | inr lowered ↦
            from_threads-kept demands n (k + 1) ret r done w w'
              (sym (from_threads_down L t demands n k ret w lowered) ∙ e)
        | inl up ↦
            let ((cnt, v), taken, rest) =
              bind_ok (realloc_scav L k t demands 0 (set_flag k false w)) _ (done, r, w')
                (rw (up, from_threads) at e) in
            elim (Bool-cases (leb demands (ret + cnt))) [
              | inl enough ↦
                  subst (R w) (ok_third (rw enough at rest)) (kept.taken k demands cnt w v up taken)
              | inr wanting ↦ kept.chain (kept.taken k demands cnt w v up taken) (
                  from_threads-kept demands n (k + 1) (ret + cnt) r done (set_flag k true v) w'
                    (rw wanting at rest))
            ]
      ]

  init_from-kept : (n p : ℕ) (w : World) → R w (init_from L t n p w)
  unfolding init_from
  init_from-kept zero p w = kept.same w
  init_from-kept (suc n) p w =
      kept.chain (kept.init p w) (init_from-kept n (p + 1) (init_at L t p w))

  allocate_demanded-kept :
      (demands r : ℕ) (w w' : World) → allocate_demanded L t demands w ≡ ok (r, w') → R w w'
  unfolding allocate_demanded
  allocate_demanded-kept demands r w w' e =
      let ((done, ret, w1), taken, rest) =
        bind_ok (from_threads L t demands max_thread_num 0 0 w) _ (r, w') e in
      let first = from_threads-kept demands max_thread_num 0 0 ret done w w1 taken in
      elim (Bool-cases done) [
        | inl enough ↦ subst (R w) (ok_second (rw enough at rest)) first
        | inr wanting ↦
            kept.chain first
              (from_pool-kept demands max_active_crt_num 0 ret r w1 w' (rw wanting at rest))
      ]

  pub allocate_scav-kept : (r : ℕ) (w w' : World) → allocate_scav L t w ≡ ok (r, w') → R w w'
  unfolding allocate_scav call_init_for_new_scav
  allocate_scav-kept r w w' e = elim (Bool-cases (counts == 0)) [
    | inl none_ ↦ subst (R w) (ok_second (rw none_ at e)) (kept.same w)
    | inr wanting ↦
        let ((ret, w1), given, rest) =
          bind_ok (allocate_demanded L t counts w) _ (r, w') (rw wanting at e) in
        subst (R w) (ok_second rest) (
          kept.chain (allocate_demanded-kept counts ret w w1 given)
            (kept.chain (init_from-kept max_crt_per_thread 1 w1) (kept.special _)))
  ]
    where
      counts : ℕ
      counts = need_more_scav w.max_scav_per_thread (w.prim t).idx_list
