-- ===== src/Pack/Loop.antt =====
-- `tl_pack_crts` as a whole.
use mathlib.Core.Path.{subst}
use msh.Prelude.{
  ℕ, zero, suc, ◌+◌, ◌-◌, ◌<◌, ◌≤◌, ◌≡◌, inl, inr, refl, ap, ◌∙◌, sym, true, false, not,
  is_minus_one, ok, first_pos_cases, Option-cases, arith,
}
use msh.Memory.{max_crt_per_thread, YieldCtx, PrimaryCtx, World, put_prim, prim-put_prim, Loader}
use msh.IdxList.{IdxList, occupied}
use msh.IdxList.Ends.{IsPacked, occupied-some, occupied-none}
use msh.IdxList.Order.{occupants}
use msh.NextMap.{has_next, set_special_next}
use msh.NextMap.Ring.{
  set_special_next_flag, set_special_next_normal, set_special_next_primary,
  idx_list-set_special_next,
}
use msh.Hosting.{idx_at, IsHosting}
use msh.Hosting.Steps.{Same, Same-IsHosting}
use msh.Symbols.Frame.{IsLinked, IsLinked-handle}
use msh.Pack.{pack_at, pack_from, pack_crts}
use msh.Pack.Hosted.{swap_crts_lem}
use msh.Pack.Packing.{
  Settled, Packing, Packing-refl, Packing-trans, Moved-Packing, Settled-stay, Settled-empty,
  Settled-moved,
}

-- One round: it returns, and one position more is settled.
pub pack_at_lem :
    (L : Loader) (t : ℕ) (w : World) (p : ℕ)
    → IsHosting w
    → IsLinked L w
    → 1 ≤ p
    → p ≤ max_crt_per_thread
    → Settled (w.prim t).idx_list p
    → (w' : World) × (pack_at L t p w ≡ ok w')
      × Packing L t w w'
      × Settled (w'.prim t).idx_list (p + 1)
unfolding pack_at
pack_at_lem L t w p h linked lo hi s = elim (Option-cases (idx_at w t p)) [
  | inr (i, taken) ↦ (
    w,
    rw (taken, pack_at) refl,
    Packing-refl h linked,
    Settled-stay (w.prim t).idx_list p s (ground arith),
  )
  | inl hole ↦
      elim (first_pos_cases (occupied (w.prim t).idx_list) (max_crt_per_thread - p) (p + 1)) [
        | inl (e, miss) ↦ (
          w,
          rw (hole, e, pack_at) refl,
          Packing-refl h linked,
          Settled-empty (w.prim t).idx_list p s miss,
        )
        | inr (b, e, hit) ↦
            let (i, was) = occupied-some (w.prim t).idx_list b hit.holds in
            let mid : p < b = omega (arith, hit.lower) in
            let top : b ≤ max_crt_per_thread = omega (arith, hit.upper) in
            let (w', called, moved, symbol) =
              swap_crts_lem L t p b i w lo mid top h linked hole was in
            (
              w',
              rw (hole, pack_at, e) called,
              Moved-Packing lo mid top h linked hole was
                  (λ r over under.
                    occupied-none (w.prim t).idx_list r (hit.before r (omega arith) under))
                  moved,
              Settled-moved t p b i w w' s mid top was moved.transfer,
            )
      ]
]

pack_from_lem :
    (L : Loader) (t n p : ℕ) (w : World)
    → IsHosting w
    → IsLinked L w
    → 1 ≤ p
    → p + n ≡ max_crt_per_thread + 1
    → Settled (w.prim t).idx_list p
    → (w' : World) × (pack_from L t n p w ≡ ok w')
      × Packing L t w w'
      × IsPacked (w'.prim t).idx_list
unfolding pack_from
pack_from_lem L t zero p w h linked lo e s =
    (w, refl, Packing-refl h linked, λ q r lo' above top. s q r lo' (omega arith) above top)
pack_from_lem L t (suc n) p w h linked lo e s =
    let (w1, called, packing, s1) = pack_at_lem L t w p h linked lo (omega arith) s in
    let (w2, called2, packing2, packed) =
      pack_from_lem L t n (p + 1) w1 packing.hosting packing.linked (omega arith) (omega arith)
        s1 in
    (w2, rw called called2, Packing-trans packing packing2, packed)

pub set_special_next-Same :
    (t : ℕ) (w : World) → Same w (put_prim t (set_special_next (w.prim t)) w)
set_special_next-Same t w = record {
  idx = λ s q. ground (arith, ap (λ (l : IdxList). l q) (idx_list-set_special_next (w.prim t)));
  runs = λ s q lo. ground (arith, set_special_next_normal (w.prim t) q);
  slot = λ j. refl;
  finished = λ j. refl;
  handle = λ j. refl;
}

set_special_next-Packing :
    (L : Loader) (t : ℕ) (w : World)
    → IsHosting w
    → IsLinked L w
    → Packing L t w (put_prim t (set_special_next (w.prim t)) w)
set_special_next-Packing L t w h linked = record {
  hosting = Same-IsHosting h (set_special_next-Same t w);
  linked = IsLinked-handle linked (λ j. refl);
  order =
      prim-put_prim (λ c. occupants c.idx_list max_crt_per_thread 1) t c w
      ∙ ap (λ l. occupants l max_crt_per_thread 1) (idx_list-set_special_next (w.prim t));
  others = λ s q e. ground arith;
  flags = λ s. ground (arith, set_special_next_flag (w.prim t));
  finished = λ j. refl;
  primary_sp =
      prim-put_prim (λ c. (c.ycs 0).sp) t c w
      ∙ ap (λ (y : YieldCtx). y.sp) (set_special_next_primary (w.prim t));
  primary_ip =
      prim-put_prim (λ c. (c.ycs 0).ip) t c w
      ∙ ap (λ (y : YieldCtx). y.ip) (set_special_next_primary (w.prim t));
  primary_runs =
      prim-put_prim (λ c. not (is_minus_one (c.ycs 0).normal_next)) t c w
      ∙ ap (λ (y : YieldCtx). not (is_minus_one y.normal_next))
          (set_special_next_primary (w.prim t));
}
  where
    c : PrimaryCtx
    c = set_special_next (w.prim t)

set_special_next-IsPacked :
    (t : ℕ) (w : World)
    → IsPacked (w.prim t).idx_list
    → IsPacked ((put_prim t (set_special_next (w.prim t)) w).prim t).idx_list
set_special_next-IsPacked t w packed =
    subst IsPacked
      (sym (
        prim-put_prim (λ c. c.idx_list) t (set_special_next (w.prim t)) w
        ∙ idx_list-set_special_next (w.prim t)))
      packed

-- In consistent tables with every object linked, packing a thread whose primary runs returns,
-- whatever holes there are. It keeps who hosts whom consistent, keeps the thread's scavengers and
-- their order, and closes every hole. The stack and instruction pointers of the primary stay, and it
-- still runs; its link may change. No scavenger is finished, and the scavengers and the flags of the
-- other threads stay.
pub pack_crts_lem :
    (L : Loader) (t : ℕ) (w : World)
    → IsHosting w
    → IsLinked L w
    → has_next (w.prim t).ycs 0 ≡ true
    → (w' : World) × (pack_crts L t w ≡ ok w') × Packing L t w w' × IsPacked (w'.prim t).idx_list
unfolding pack_crts
pack_crts_lem L t w h linked running =
    let (w1, called, packing, packed) =
      pack_from_lem L t max_crt_per_thread 1 w h linked (omega arith) (omega arith)
        (λ q r lo below. absurd (omega arith)) in
    (
      put_prim t (set_special_next (w1.prim t)) w1,
      ground (arith, called),
      Packing-trans packing (set_special_next-Packing L t w1 packing.hosting packing.linked),
      set_special_next-IsPacked t w1 packed,
    )

-- For a primary that has finished nothing is packed.
pub pack_crts_finished :
    (L : Loader) (t : ℕ) (w : World) → has_next (w.prim t).ycs 0 ≡ false → pack_crts L t w ≡ ok w
unfolding pack_crts
pack_crts_finished L t w h = ground arith
