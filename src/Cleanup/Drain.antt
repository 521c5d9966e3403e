-- ===== src/Cleanup/Drain.antt =====
-- `msh_cleanup` as a whole.
use msh.Prelude.{
  ℕ, zero, suc, ◌+◌, ◌<◌, ◌≡◌, inl, inr, refl, ap, ◌∙◌, sym, false, exit, fault, ◌==◌, none, pos,
  Outcome, ok, ◌>>=◌, arith,
}
use msh.Memory.{max_crt_per_thread, World, Loader}
use msh.IdxList.{IdxList, hosted, find_unfinished_crt}
use msh.IdxList.Push.{hosted-le, find_unfinished_cases}
use msh.Hosting.{idx_at, IsHosting}
use msh.Hosting.Steps.{Same-IsHosting}
use msh.Symbols.Frame.{IsLinked}
use msh.Symbols.Offsets.{SymbolsSet}
use msh.Schedule.{Switch, switch_cleanup}
use msh.Schedule.Leaving.{taken_out}
use msh.Schedule.Draining.{
  primary_over, primary_over_list, sched_next_crt_position, switch_cleanup_end, switch_cleanup_next,
}
use msh.Cleanup.{Control, returned, running, link_to_self, after_setjmp, msh_cleanup, run_control}
use msh.Cleanup.Prepare.{
  IsDraining, prepared-Same, link_to_self-Same, link_to_self-Quiet, prepared-Quiet,
  prepared-IsDraining,
}
use msh.Cleanup.Round.{taken_out-IsDraining, run_resumed}
use msh.Cleanup.Taken.{taken_out-Detach, hosted-taken_out, taken_out-Quiet}
use msh.Cleanup.Done.{
  Drained, primary_reset, after_setjmp_done, reset-Drained, Detach-Drained, Same-Drained, at_pos,
  at_pos-Same, at_pos-Quiet, at_pos-IsDraining, run_returned, run_end,
}

-- From a switch of the cleanup branch on: enough fuel ends in a return, with every scavenger done.
drain :
    (L : Loader) (t n fuel : ℕ) (w : World)
    → IsDraining L t w
    → hosted (w.prim t).idx_list ≡ n
    → n < fuel
    → (w' : World) × ((switch_cleanup t (find_unfinished_crt (w.prim t).idx_list) w >>= λ (s, w1).
          run_control L t fuel (running s w1))
        ≡ ok (returned w'))
      × Drained t w w'
drain L t n zero w d e less = absurd (omega arith)
drain L t n (suc fuel) w d e less = elim (find_unfinished_cases (w.prim t).idx_list) [
  | inl all ↦ (
    primary_reset t (at_pos t (pos 0) w),
    rw (all.result, switch_cleanup_end t w) (run_end L t fuel (at_pos t (pos 0) w) all.result),
    Same-Drained t w (at_pos t (pos 0) w) _ (at_pos-Same t (pos 0) w) (at_pos-Quiet t (pos 0) w) (
        reset-Drained t (at_pos t (pos 0) w) (Same-IsHosting d.hosting (at_pos-Same t (pos 0) w))
          all),
  )
  | inr (p, first) ↦
      let (i, was) = first.holds in
      let v : World = at_pos t (pos p) w in
      let dv : IsDraining L t v = at_pos-IsDraining L t (pos p) w d in
      let left = hosted-taken_out t p i v first.lower was first.upper in
      let (w', ran, drained) =
        drain L t (hosted ((taken_out t p v).prim t).idx_list) fuel (taken_out t p v)
          (taken_out-IsDraining L t p i v dv first.lower first.upper was) refl
          (omega (arith, left, e)) in
      (
        w',
        rw (first.result, switch_cleanup_next t p w first.lower first.upper)
            (run_resumed L t p i v dv first.lower first.upper was fuel _ _ ∙ ran),
        Same-Drained t w v w' (at_pos-Same t (pos p) w) (at_pos-Quiet t (pos p) w) (
            Detach-Drained t p i v (taken_out t p v) w' was
              (taken_out-Detach t p i v first.lower was) (taken_out-Quiet t p i v first.lower was)
              drained),
      )
]

cleanup_first :
    (L : Loader) (t : ℕ) (w : World)
    → (find_unfinished_crt (w.prim t).idx_list == 0) ≡ false
    → idx_at w t 0 ≡ none
    → after_setjmp L t w ≡ (
        switch_cleanup t (find_unfinished_crt (w.prim t).idx_list) (primary_over t w) >>= λ (s, w1).
        ok (running s w1))
unfolding after_setjmp
cleanup_first L t w e none_ =
    rw (e, after_setjmp, sched_next_crt_position L t 0 w (omega arith) none_) refl

bind_running :
    (m : Outcome (Switch × World)) (k : Control → Outcome Control)
    → ((m >>= λ (s, w1). ok (running s w1)) >>= k) ≡ (m >>= λ (s, w1). k (running s w1))
bind_running (ok (s, w1)) k = refl
bind_running exit k = refl
bind_running fault k = refl

-- One switch for each position, and one for the end.
abbrev pub cleanup_fuel : ℕ
cleanup_fuel = max_crt_per_thread + 2

cleanup_run :
    (L : Loader) (t : ℕ) (v : World)
    → (find_unfinished_crt (v.prim t).idx_list == 0) ≡ false
    → IsHosting v
    → IsDraining L t (primary_over t v)
    → (w' : World) × ((after_setjmp L t v >>= run_control L t cleanup_fuel) ≡ ok (returned w'))
      × Drained t (primary_over t v) w'
cleanup_run L t v some_ h d =
    let (w', ran, drained) =
      drain L t (hosted ((primary_over t v).prim t).idx_list) cleanup_fuel (primary_over t v) d refl
        (omega (arith, hosted-le ((primary_over t v).prim t).idx_list)) in
    (
      w',
      ap (λ (m : Outcome Control). m >>= run_control L t cleanup_fuel)
            (cleanup_first L t v some_ (h.reserved t))
          ∙ bind_running
              (switch_cleanup t (find_unfinished_crt (v.prim t).idx_list) (primary_over t v))
              (run_control L t cleanup_fuel)
          ∙ ap
              (λ (l : IdxList).
                switch_cleanup t (find_unfinished_crt l) (primary_over t v) >>= λ (s, w1).
                run_control L t cleanup_fuel (running s w1))
              (sym (primary_over_list t v))
          ∙ ran,
      drained,
    )

-- A thread that cleans up in consistent tables with every object linked, with its scavengers'
-- `crt_pos` as `set_scav_symbol` sets them, each scavenger returning its `crt_pos`, and without
-- SKIP_CLEANUP, comes back from `msh_cleanup`. Then every scavenger that it hosted is finished, it
-- hosts none, its primary's link is reset, the contexts of the other threads are as before, with all
-- that is in them, and no finished scavenger is taken back.
pub msh_cleanup_lem :
    (L : Loader) (t : ℕ) (w : World)
    → IsHosting w
    → IsLinked L w
    → SymbolsSet L t w
    → (w' : World) × ((msh_cleanup L t false w >>= run_control L t cleanup_fuel) ≡ ok (returned w'))
      × Drained t w w'
unfolding msh_cleanup
msh_cleanup_lem L t w h linked symbols =
    elim (find_unfinished_cases ((link_to_self t w).prim t).idx_list) [
      | inl all ↦ (
        primary_reset t (link_to_self t w),
        rw (after_setjmp_done L t (link_to_self t w) all.result)
            (run_returned L t cleanup_fuel (primary_reset t (link_to_self t w))),
        Same-Drained t w (link_to_self t w) _ (link_to_self-Same t w) (link_to_self-Quiet t w)
            (reset-Drained t (link_to_self t w) (Same-IsHosting h (link_to_self-Same t w)) all),
      )
      | inr (p, first) ↦
          let (w', ran, drained) =
            cleanup_run L t (link_to_self t w) (ground (arith, first.result, first.lower))
              (Same-IsHosting h (link_to_self-Same t w))
              (prepared-IsDraining L t w h linked symbols) in
          (
            w',
            ran,
            Same-Drained t w (primary_over t (link_to_self t w)) w' (prepared-Same t w)
                (prepared-Quiet t w) drained,
          )
    ]
