-- ===== src/Schedule/Draining.antt =====
-- The scheduler when the primary has finished, or is taken for finished.
use msh.Prelude.{
  ℕ, ◌*◌, ◌/◌, ◌<◌, ◌≤◌, ◌≡◌, refl, ap, ◌∙◌, not, false, ◌==◌, ltb, update, Option, none, some, ℤ,
  pos, minus_one, is_minus_one, to_short, to_size, Outcome, ok, ◌>>=◌, arith,
}
use msh.Memory.{
  max_crt_per_thread, sizeof_yield_ctx, YieldCtx, World, put_prim_self, put_prim, put_yc, Loader,
}
use msh.IdxList.{find_unfinished_crt}
use msh.NextMap.{has_next}
use msh.NextMap.Available.{update_next_map_finished}
use msh.Hosting.{idx_at}
use msh.Finish.{finish_crt, finish_crt_primary, finish_crt_scavenger}
use msh.Pack.{pack_crts}
use msh.Pack.Loop.{pack_crts_finished}
use msh.Schedule.{
  resume, end_cleanup, counted, update_map, switch_to, switch_cleanup, refill, leave, sched_from,
  sched_next_crt,
}
use msh.Schedule.Leaving.{taken_out, sched_from_step}
use msh.Schedule.Running.{update_map_lem}

refill_finished :
    (L : Loader) (t : ℕ) (w : World) → has_next (w.prim t).ycs 0 ≡ false → refill L t w ≡ ok w
unfolding refill
refill_finished L t w e = rw e refl

pub leave_finished :
    (L : Loader) (t : ℕ) (n : ℤ) (w : World)
    → has_next (w.prim t).ycs 0 ≡ false
    → leave L t n w ≡ switch_cleanup t (find_unfinished_crt (w.prim t).idx_list) w
unfolding leave
leave_finished L t n w e = rw (leave, refill_finished L t w e, e) refl

-- A scavenger that returns after the primary is taken out, and the next unfinished one goes on.
pub sched_from_draining :
    (L : Loader) (t p i : ℕ) (w : World)
    → 1 ≤ p
    → p ≤ max_crt_per_thread
    → idx_at w t p ≡ some i
    → has_next (w.prim t).ycs 0 ≡ false
    → sched_from L t p w
      ≡ switch_cleanup t (find_unfinished_crt ((taken_out t p w).prim t).idx_list) (taken_out t p w)
unfolding taken_out
sched_from_draining L t p i w lo hi was over =
    sched_from_step L t p w lo hi
    ∙ ap
        (λ (m : Outcome World).
          m >>= leave L t (to_short (to_size ((w.prim t).ycs p).normal_next / sizeof_yield_ctx)))
        (pack_crts_finished L t (taken_out t p w) still)
    ∙ leave_finished L t _ (taken_out t p w) still
  where
    still : has_next ((taken_out t p w).prim t).ycs 0 ≡ false
    still =
        (update_map_lem t (finish_crt t p (counted w))).runs
        ∙ ap (λ (y : YieldCtx). not (is_minus_one y.normal_next))
            (finish_crt_scavenger t p i (counted w) lo was).primary
        ∙ over

-- The tables with the primary of `t` marked finished.
abbrev pub primary_over : ℕ → World → World
primary_over t w = put_yc t 0 (record ((w.prim t).ycs 0) { normal_next = minus_one }) w

pub primary_over_mark : (t : ℕ) (w : World) → has_next ((primary_over t w).prim t).ycs 0 ≡ false
primary_over_mark t w = ground arith

pub primary_over_list :
    (t : ℕ) (w : World) → ((primary_over t w).prim t).idx_list ≡ (w.prim t).idx_list
primary_over_list t w = ground arith

update_map_over : (t : ℕ) (w : World) → has_next (w.prim t).ycs 0 ≡ false → update_map t w ≡ w
update_map_over t w e =
    ap (λ c. put_prim t c w) (update_next_map_finished (w.prim t) (ground arith))
    ∙ put_prim_self t w

-- A return from the primary's position marks the primary finished and goes to the cleanup branch.
pub sched_from_primary :
    (L : Loader) (t : ℕ) (w : World)
    → idx_at w t 0 ≡ none
    → sched_from L t 0 w
      ≡ switch_cleanup t (find_unfinished_crt (w.prim t).idx_list) (primary_over t w)
unfolding sched_from
sched_from_primary L t w none_ =
    ap (λ (v : World). pack_crts L t v >>= leave L t n)
      (ap (update_map t) (finish_crt_primary t w none_)
        ∙ update_map_over t (primary_over t w) (primary_over_mark t w))
    ∙ ap (λ (m : Outcome World). m >>= leave L t n)
        (pack_crts_finished L t (primary_over t w) (primary_over_mark t w))
    ∙ leave_finished L t n (primary_over t w) (primary_over_mark t w)
    ∙ ap (λ (l : ℕ → Option ℕ). switch_cleanup t (find_unfinished_crt l) (primary_over t w))
        (primary_over_list t w)
  where
    n : ℤ
    n = to_short (to_size ((w.prim t).ycs 0).normal_next / sizeof_yield_ctx)

-- A coroutine that returns a number below the size of a context is taken for the primary, whatever
-- the primary does: the primary is marked finished, the scheduler goes to the cleanup branch, and
-- no scavenger is finished. `tl_swap_crts` and `realloc_scav` leave such a number, the position
-- itself, in the `crt_pos` of a scavenger that they move to one of the first 19 positions.
pub sched_next_crt_position :
    (L : Loader) (t a : ℕ) (w : World)
    → a < sizeof_yield_ctx
    → idx_at w t 0 ≡ none
    → sched_next_crt L t a w
      ≡ switch_cleanup t (find_unfinished_crt (w.prim t).idx_list) (primary_over t w)
unfolding sched_next_crt
sched_next_crt_position L t a w small none_ =
    let first : a / sizeof_yield_ctx ≡ 0 = omega arith in
    ap (λ q. sched_from L t q w) first ∙ sched_from_primary L t w none_

pub sched_next_crt_offset :
    (L : Loader) (t p : ℕ) (w : World)
    → sched_next_crt L t (p * sizeof_yield_ctx) w ≡ sched_from L t p w
unfolding sched_next_crt
sched_next_crt_offset L t p w =
    let back : p * sizeof_yield_ctx / sizeof_yield_ctx ≡ p = omega arith in
    ap (λ q. sched_from L t q w) back

-- The cleanup branch by what is left.
pub switch_cleanup_end :
    (t : ℕ) (w : World)
    → switch_cleanup t 0 w
      ≡ ok (end_cleanup, record w { cur_crt_pos = update w.cur_crt_pos t (pos 0) })
unfolding switch_cleanup
switch_cleanup_end t w = refl

pub switch_cleanup_next :
    (t c : ℕ) (w : World)
    → 1 ≤ c
    → c ≤ max_crt_per_thread
    → switch_cleanup t c w
      ≡ ok (
        resume c ((w.prim t).ycs c).sp ((w.prim t).ycs c).ip,
        record w { cur_crt_pos = update w.cur_crt_pos t (pos c) },
      )
unfolding switch_cleanup switch_to
switch_cleanup_next t c w lo hi =
    let some_ : (c == 0) ≡ false = ground arith in
    let inside : ltb max_crt_per_thread c ≡ false = ground arith in rw (some_, inside) refl
