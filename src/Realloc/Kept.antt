-- ===== src/Realloc/Kept.antt =====
-- `realloc_scav` as a sequence of writes, for what every one of them leaves alone.
use mathlib.Core.Path.{subst}
use msh.Prelude.{
  ok_inj, ok_second, ℕ, zero, suc, ◌+◌, ◌≡◌, ◌≤◌, inl, inr, update, arith, Option, none, some,
  Outcome, ok, bind_ok,
}
use msh.Memory.{max_crt_per_thread, World, put_prim, Loader}
use msh.IdxList.{IdxList, push_back}
use msh.IdxList.Ends.{pop_back_cases}
use msh.Symbols.{move_symbol}
use msh.Realloc.{
  Turn, give, adopt, moved, stopped, finish_move, realloc_pushed, realloc_popped, realloc_one,
  realloc_scav,
}

-- The world after a round.
abbrev turned : Turn → World
turned (moved w) = w
turned (stopped w) = w

-- The contexts of `f` and `t` when the scavenger at `p` has come to `q`.
unfoldable pub handed_over : ℕ → ℕ → ℕ → ℕ → IdxList → IdxList → World → World
unfolding adopt
handed_over f t p q l m w =
    let from = record (w.prim f) { idx_list = l } in
    put_prim t (adopt q (from.ycs p) (from.regs p) (record (w.prim t) { idx_list = m }))
      (put_prim f (give p from) w)

-- Neither the end of a move nor a rollback writes a yield context.
pub finish_move_ycs :
    (f t s q i : ℕ) (w : World) → (w.prim s).ycs ≡ ((finish_move f t q i w).prim s).ycs
unfolding finish_move
finish_move_ycs f t s q i w = ground arith

pub rollback_ycs :
    (f s : ℕ) (l : IdxList) (w : World)
    → (w.prim s).ycs ≡ ((put_prim f (record (w.prim f) { idx_list = l }) w).prim s).ycs
rollback_ycs f s l w = ground arith

-- A relation that every write of `realloc_scav` from `f` to `t` keeps.
pub record IsKept (L : Loader) (f t : ℕ) (R : World → World → Type 0) : Type 0 where
  pub same : (w : World) → R w w
  pub chain : {w w' w'' : World} → R w w' → R w' w'' → R w w''
  pub rollback : (l : IdxList) (w : World) → R w (put_prim f (record (w.prim f) { idx_list = l }) w)
  pub hand : (p q : ℕ) (l m : IdxList) (w : World) → 1 ≤ p → R w (handed_over f t p q l m w)
  pub symbol : (i q : ℕ) (w w' : World) → move_symbol L (some i) q w ≡ ok w' → R w w'
  pub finish : (q i : ℕ) (w : World) → R w (finish_move f t q i w)

module _ {L : Loader} {f t : ℕ} {R : World → World → Type 0} (kept : IsKept L f t R) where
  realloc_pushed-kept :
      (p i : ℕ) (l : IdxList) (w : World) (r : IdxList × Option ℕ) (turn : Turn)
      → 1 ≤ p
      → realloc_pushed L f p t i l w r ≡ ok turn
      → R w (turned turn)
  unfolding realloc_pushed handed_over
  realloc_pushed-kept p i l w (m, none) turn lo e =
      subst (λ (x : Turn). R w (turned x)) (ok_inj e) (kept.rollback _ w)
  realloc_pushed-kept p i l w (m, some q) turn lo e =
      let (w', symbol, rest) =
        bind_ok (move_symbol L (some i) q (handed_over f t p q l m w))
          (λ v. ok (moved (finish_move f t q i v))) turn e in
      subst (λ (x : Turn). R w (turned x)) (ok_inj rest)
        (kept.chain (kept.hand p q l m w lo)
          (kept.chain (kept.symbol i q (handed_over f t p q l m w) w' symbol) (kept.finish q i w')))

  realloc_one-kept : (w : World) (turn : Turn) → realloc_one L f t w ≡ ok turn → R w (turned turn)
  unfolding realloc_one realloc_popped
  realloc_one-kept w turn e =
      elim (pop_back_cases (w.prim f).idx_list (max_crt_per_thread + 1) (omega arith)) [
        | inl empty ↦
            subst (λ (x : Turn). R w (turned x)) (ok_inj (rw empty.result at e)) (kept.same w)
        | inr (p, i, popped) ↦
            realloc_pushed-kept p i (update (w.prim f).idx_list p none) w
              (push_back (w.prim t).idx_list (max_crt_per_thread + 1) i) turn popped.lower
              (rw popped.result at e)
      ]

  -- What a turn does with the rest of the loop.
  after_turn :
      (r : ℕ) (w' : World) (again : World → Outcome (ℕ × World)) (turn : Turn) (ret : ℕ)
      → ((v : World) → again v ≡ ok (r, w') → R v w')
      → (elim turn as (λ x. Outcome (ℕ × World)) [ moved v ↦ again v | stopped v ↦ ok (ret, v) ])
        ≡ ok (r, w')
      → R (turned turn) w'
  after_turn r w' again (moved v) ret rest e = rest v e
  after_turn r w' again (stopped v) ret rest e = subst (R v) (ok_second e) (kept.same v)

  pub realloc_scav-kept :
      (n ret r : ℕ) (w w' : World) → realloc_scav L f t n ret w ≡ ok (r, w') → R w w'
  unfolding realloc_scav
  realloc_scav-kept zero ret r w w' e = subst (R w) (ok_second e) (kept.same w)
  realloc_scav-kept (suc n) ret r w w' e =
      let (turn, one, rest) = bind_ok (realloc_one L f t w) _ (r, w') e in
      kept.chain (realloc_one-kept w turn one) (
        after_turn r w' (realloc_scav L f t n (ret + 1)) turn ret
          (λ v d. realloc_scav-kept n (ret + 1) r v w' d) rest)
