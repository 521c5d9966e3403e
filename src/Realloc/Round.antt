-- ===== src/Realloc/Round.antt =====
-- One round of the loop of `realloc_scav`.
use mathlib.Core.Path.{subst}
use msh.Prelude.{
  ℕ, ◌+◌, ◌≤◌, ◌≡◌, ◌≢◌, ◌⊎◌, true, inl, inr, refl, ap, ◌∙◌, sym, ◌==◌, ==→eq, update, Option, none,
  some, is_minus_one, not, Outcome, ok, ◌>>=◌, Bool-cases, arith,
}
use msh.Memory.{max_crt_per_thread, World, put_prim, put_prim_self, yield_ptr, Loader}
use msh.IdxList.{IdxList, occupied, push_back}
use msh.IdxList.Push.{push-pop_packed}
use msh.IdxList.Ends.{IsPacked, Pushed, Popped, push_back_cases, pop_back_cases}
use msh.Hosting.{IsHosting}
use msh.Hosting.Steps.{Same, Transfer, Transfer-IsHosting}
use msh.Hosting.Gain.{Gain, Gain-SameTables, IsPacked-push, IsPacked-pop, IsPacked-congr, hosted_at}
use msh.Symbols.Frame.{
  SameTables, SameTables-Same, IsLinked, IsLinked-handle, move_symbol-SameTables,
  move_symbol_returns,
}
use msh.Realloc.{Turn, finish_move, moved, stopped, realloc_pushed, realloc_popped, realloc_one}
use msh.Realloc.Move.{
  handed_over, taken_over, taken_over-Transfer, TakenOver, taken_over-TakenOver, taken_over-max,
}

-- `finish_move` keeps what the symbol's write has kept.
finish_move-SameTables :
    (f t q i : ℕ) (v v' : World)
    → SameTables v v'
    → SameTables (finish_move f t q i v) (finish_move f t q i v')
unfolding finish_move
finish_move-SameTables f t q i v v' e = record {
  scav = λ k. update (e.scav k) i (record (e.scav k i) { yc = some (yield_ptr t q) });
  idx_list = λ s. ground (arith, e.idx_list s, e.idx_list f);
  ycs = λ s. ground (arith, e.ycs s, e.ycs f);
  regs = λ s. ground (arith, e.regs s, e.regs f);
  reallocatable = λ s. ground (arith, e.reallocatable s, e.reallocatable f);
  max = e.max;
  strays = e.strays;
  finished_cnt = e.finished_cnt;
  closed = e.closed;
}

module _ (L : Loader) (f t : ℕ) (w : World) (ne : f ≢ t) (h : IsHosting w) (linked : IsLinked L w)
    (packed : IsPacked (w.prim f).idx_list) (p i q : ℕ)
    (popped : Popped (w.prim f).idx_list (max_crt_per_thread + 1) p i)
    (pushed : Pushed (w.prim t).idx_list (max_crt_per_thread + 1) i q) where
  transfer : Transfer w (taken_over f p t q i w) f p t q i
  transfer = taken_over-Transfer f p t q i w ne popped.lower pushed.lower

  taken : TakenOver f p t q i w ne popped.lower pushed.lower (taken_over f p t q i w)
  taken = taken_over-TakenOver f p t q i w ne popped.lower pushed.lower

  IsPacked-after :
      (s : ℕ) → IsPacked (w.prim s).idx_list → IsPacked ((taken_over f p t q i w).prim s).idx_list
  unfolding transfer
  IsPacked-after s packed_s = elim (Bool-cases (t == s)) [
    | inl here ↦
        subst
          (λ r. IsPacked (w.prim r).idx_list → IsPacked ((taken_over f p t q i w).prim r).idx_list)
          (==→eq t s here)
          (IsPacked-push (w.prim t).idx_list ((taken_over f p t q i w).prim t).idx_list
            (max_crt_per_thread + 1) i q pushed (λ r. ground (arith, transfer.idx t r)))
          packed_s
    | inr off ↦ elim (Bool-cases (f == s)) [
      | inl donor ↦
          subst
            (λ r.
              IsPacked (w.prim r).idx_list → IsPacked ((taken_over f p t q i w).prim r).idx_list)
            (==→eq f s donor)
            (IsPacked-pop (w.prim f).idx_list ((taken_over f p t q i w).prim f).idx_list p i popped
              (λ r. ground (arith, transfer.idx f r)))
            packed_s
      | inr other ↦
          IsPacked-congr (w.prim s).idx_list ((taken_over f p t q i w).prim s).idx_list
            (λ r. ground (arith, transfer.idx s r)) packed_s
    ]
  ]

  taken_over-Gain : Gain L t 1 w (taken_over f p t q i w)
  unfolding transfer taken
  taken_over-Gain = record {
    hosting =
        Transfer-IsHosting h popped.lower (omega (arith, popped.upper)) pushed.lower
          (omega (arith, pushed.upper)) transfer popped.was pushed.was_free;
    linked = IsLinked-handle linked transfer.handle;
    count =
        hosted_at (w.prim t).idx_list ((taken_over f p t q i w).prim t).idx_list q i pushed.lower
          (omega (arith, pushed.upper)) pushed.was_free (λ r. ground (arith, transfer.idx t r));
    finished = transfer.finished;
    handle = transfer.handle;
    owned = λ j x. ground (arith, transfer.slot j);
    primary_sp = taken.sp;
    primary_ip = taken.ip;
    primary_runs = λ e. ap (λ n. not (is_minus_one n)) taken.next;
    packed = IsPacked-after;
    flags = taken.flags;
    max = taken_over-max f p t q i w ne popped.lower pushed.lower;
  }

  realloc_pushed-moved :
      (w' : World) × (realloc_pushed L f p t i
          (update (w.prim f).idx_list p none)
          w
          (update (w.prim t).idx_list q (some i), some q)
        ≡ ok (moved w'))
      × Gain L t 1 w w'
      × SameTables (taken_over f p t q i w) w'
  unfolding realloc_pushed
  realloc_pushed-moved =
      let (g, has) = h.loaded f p i popped.lower (omega (arith, popped.upper)) popped.was in
      let (w', e) =
        move_symbol_returns L i q g (handed_over f p t q i w) (IsLinked-handle linked (λ j. refl))
          has in
      let same =
        finish_move-SameTables f t q i (handed_over f p t q i w) w'
          (move_symbol-SameTables L (some i) q (handed_over f p t q i w) w' e) in
      (
        finish_move f t q i w',
        ap (λ (m : Outcome World). m >>= λ v. ok (moved (finish_move f t q i v))) e,
        Gain-SameTables taken_over-Gain same,
        same,
      )

-- The donor's list after a rollback is what it was.
rolled_back :
    (f p i : ℕ) (w : World)
    → IsPacked (w.prim f).idx_list
    → Popped (w.prim f).idx_list (max_crt_per_thread + 1) p i
    → (push_back (update (w.prim f).idx_list p none) (max_crt_per_thread + 1) i).0
      ≡ (w.prim f).idx_list
rolled_back f p i w packed popped =
    ap (λ (r : IdxList × Option (ℕ × ℕ)). (push_back r.0 (max_crt_per_thread + 1) i).0)
      (sym popped.result)
    ∙ ap (λ (r : IdxList × Option ℕ). r.0) (push-pop_packed (w.prim f).idx_list p i packed popped)

-- Storing the list that is there already changes nothing at all.
put_prim_list :
    (f : ℕ) (l : IdxList) (w : World)
    → l ≡ (w.prim f).idx_list
    → put_prim f (record (w.prim f) { idx_list = l }) w ≡ w
put_prim_list f l w e =
    ap (λ m. put_prim f (record (w.prim f) { idx_list = m }) w) e ∙ put_prim_self f w

-- How a round ends: there is nothing to take or no room for it, and the whole state is as it was; or
-- the last scavenger of the donor comes to the first free position of the caller.
pub data TurnOf (L : Loader) (f t : ℕ) (w : World) : Outcome Turn → Type 0 where
  nothing_left :
      ((q : ℕ) → 1 ≤ q → q ≤ max_crt_per_thread → (w.prim f).idx_list q ≡ none)
      → TurnOf L f t w (ok (stopped w))
  no_room :
      ((q : ℕ) → 1 ≤ q → q ≤ max_crt_per_thread → occupied (w.prim t).idx_list q ≡ true)
      → TurnOf L f t w (ok (stopped w))
  one_more :
      (p i q : ℕ) (w' : World)
      → Popped (w.prim f).idx_list (max_crt_per_thread + 1) p i
      → Pushed (w.prim t).idx_list (max_crt_per_thread + 1) i q
      → Transfer w w' f p t q i
      → Gain L t 1 w w'
      → TurnOf L f t w (ok (moved w'))

Transfer-Same :
    {w w' w'' : World} {f p t q i : ℕ}
    → Transfer w w' f p t q i
    → Same w' w''
    → Transfer w w'' f p t q i
Transfer-Same d e = record {
  idx = λ s r. e.idx s r ∙ d.idx s r;
  runs = λ s r lo. e.runs s r lo ∙ d.runs s r lo;
  slot = λ j. e.slot j ∙ d.slot j;
  finished = λ j. e.finished j ∙ d.finished j;
  handle = λ j. e.handle j ∙ d.handle j;
}

-- Between two threads, in consistent tables with every object linked and the donor packed, a round
-- returns. Either the donor has nothing or the caller has no room, and then the whole state is as
-- before, a rollback included; or just the last scavenger of the donor has gone over to the first
-- free position of the caller.
pub realloc_one_cases :
    (L : Loader) (f t : ℕ) (w : World)
    → f ≢ t
    → IsHosting w
    → IsLinked L w
    → IsPacked (w.prim f).idx_list
    → TurnOf L f t w (realloc_one L f t w)
unfolding realloc_one realloc_popped realloc_pushed
realloc_one_cases L f t w ne h linked packed =
    elim (pop_back_cases (w.prim f).idx_list (max_crt_per_thread + 1) (omega arith)) [
      | inl empty ↦
          subst (TurnOf L f t w) (sym (ap (realloc_popped L f t w) empty.result))
            (nothing_left (λ q lo hi. empty.free q lo (omega arith)))
      | inr (p, i, popped) ↦
          elim (push_back_cases (w.prim t).idx_list (max_crt_per_thread + 1) i (omega arith)) [
            | inl full ↦
                subst (TurnOf L f t w)
                  (sym (
                    ap (realloc_popped L f t w) popped.result
                    ∙ ap (realloc_pushed L f p t i (update (w.prim f).idx_list p none) w)
                        full.result
                    ∙ ap (λ v. ok (stopped v))
                        (put_prim_list f _ w (rolled_back f p i w packed popped))))
                  (no_room (λ q lo hi. full.taken q lo (omega arith)))
            | inr (q, pushed) ↦
                let (w', e, gain, same) =
                  realloc_pushed-moved L f t w ne h linked packed p i q popped pushed in
                subst (TurnOf L f t w)
                  (sym (
                    ap (realloc_popped L f t w) popped.result
                    ∙ ap (realloc_pushed L f p t i (update (w.prim f).idx_list p none) w)
                        pushed.result
                    ∙ e))
                  (one_more p i q w' popped pushed
                    (Transfer-Same (transfer L f t w ne h linked packed p i q popped pushed)
                      (SameTables-Same same))
                    gain)
          ]
    ]

pub TurnOf-cases :
    {L : Loader} {f t : ℕ} {w : World} {out : Outcome Turn}
    → TurnOf L f t w out
    → (out ≡ ok (stopped w)) ⊎ ((w' : World) × (out ≡ ok (moved w')) × Gain L t 1 w w')
TurnOf-cases (nothing_left free) = inl refl
TurnOf-cases (no_room occupied_all) = inl refl
TurnOf-cases (one_more p i q w' popped pushed went gain) = inr (w', refl, gain)
