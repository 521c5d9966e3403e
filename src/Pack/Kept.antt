-- ===== src/Pack/Kept.antt =====
-- `tl_pack_crts` as a sequence of writes, for what every one of them leaves alone.
use mathlib.Core.Path.{subst}
use msh.Prelude.{
  ok_inj, ℕ, zero, suc, ◌+◌, ◌-◌, ◌<◌, ◌≤◌, ◌≡◌, inl, inr, Option, ok, bind_ok, first_pos_cases,
  is_minus_one, Bool-cases, Option-cases, arith,
}
use msh.Memory.{max_crt_per_thread, World, put_prim, Loader}
use msh.IdxList.{occupied}
use msh.NextMap.{set_special_next}
use msh.Hosting.{idx_at}
use msh.Symbols.{move_symbol}
use msh.Pack.{swap_tables, swap_crts, pack_at, pack_from, pack_crts}

-- A relation that every write of packing thread `t` keeps.
pub record IsKept (L : Loader) (t : ℕ) (R : World → World → Type 0) : Type 0 where
  pub same : (w : World) → R w w
  pub chain : {w w' w'' : World} → R w w' → R w' w'' → R w w''
  pub swap :
      (a b : ℕ) (w : World) → 1 ≤ a → a < b → b ≤ max_crt_per_thread → R w (swap_tables t a b w)
  pub symbol : (x : Option ℕ) (q : ℕ) (w w' : World) → move_symbol L x q w ≡ ok w' → R w w'
  pub special : (w : World) → R w (put_prim t (set_special_next (w.prim t)) w)

module _ {L : Loader} {t : ℕ} {R : World → World → Type 0} (kept : IsKept L t R) where
  swap_crts-kept :
      (a b : ℕ) (w w' : World)
      → 1 ≤ a
      → a < b
      → b ≤ max_crt_per_thread
      → swap_crts L t a b w ≡ ok w'
      → R w w'
  unfolding swap_crts
  swap_crts-kept a b w w' lo mid hi e =
      let (v, first, rest) =
        bind_ok (move_symbol L (idx_at w t a) b (swap_tables t a b w))
          (move_symbol L (idx_at w t b) a) w' e in
      kept.chain (kept.swap a b w lo mid hi) (
        kept.chain (kept.symbol (idx_at w t a) b (swap_tables t a b w) v first)
          (kept.symbol (idx_at w t b) a v w' rest))

  pack_at-kept :
      (p : ℕ) (w w' : World) → 1 ≤ p → p ≤ max_crt_per_thread → pack_at L t p w ≡ ok w' → R w w'
  unfolding pack_at
  pack_at-kept p w w' lo hi e = elim (Option-cases (idx_at w t p)) [
    | inr (i, taken) ↦ subst (R w) (ok_inj (rw (taken, pack_at) at e)) (kept.same w)
    | inl hole ↦
        elim (first_pos_cases (occupied (w.prim t).idx_list) (max_crt_per_thread - p) (p + 1)) [
          | inl (end, miss) ↦ subst (R w) (ok_inj (rw (hole, pack_at, end) at e)) (kept.same w)
          | inr (q, next, hit) ↦
              swap_crts-kept p q w w' lo (omega (arith, hit.lower)) (omega (arith, hit.upper))
                (rw (hole, pack_at, next) at e)
        ]
  ]

  pack_from-kept :
      (n p : ℕ) (w w' : World)
      → 1 ≤ p
      → p + n ≡ max_crt_per_thread + 1
      → pack_from L t n p w ≡ ok w'
      → R w w'
  unfolding pack_from
  pack_from-kept zero p w w' lo sum e = subst (R w) (ok_inj e) (kept.same w)
  pack_from-kept (suc n) p w w' lo sum e =
      let (v, one, rest) = bind_ok (pack_at L t p w) (pack_from L t n (p + 1)) w' e in
      kept.chain (pack_at-kept p w v lo (omega arith) one)
        (pack_from-kept n (p + 1) v w' (omega arith) (omega arith) rest)

  pub pack_crts-kept : (w w' : World) → pack_crts L t w ≡ ok w' → R w w'
  unfolding pack_crts
  pack_crts-kept w w' e = elim (Bool-cases (is_minus_one ((w.prim t).ycs 0).normal_next)) [
    | inl over ↦ subst (R w) (ok_inj (rw over at e)) (kept.same w)
    | inr runs ↦
        let (v, done, rest) = bind_ok (pack_from L t max_crt_per_thread 1 w) _ w' (rw runs at e) in
        subst (R w) (ok_inj rest) (
          kept.chain (pack_from-kept max_crt_per_thread 1 w v (omega arith) (omega arith) done)
            (kept.special v))
  ]
