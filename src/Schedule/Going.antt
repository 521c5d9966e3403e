-- ===== src/Schedule/Going.antt =====
-- Returns that the scheduler goes on from.
use mathlib.Core.Path.{subst}
use msh.Prelude.{
  ok_inj, ℕ, ◌/◌, ◌≤◌, ◌≡◌, inl, inr, refl, ap, ◌∙◌, sym, true, false, ◌==◌, ltb, update, ℤ, pos,
  to_short, to_size, Outcome, ok, ◌>>=◌, ==→eq, Bool-cases, arith,
}
use msh.Memory.{max_crt_per_thread, sizeof_yield_ctx, World, Loader}
use msh.IdxList.{find_unfinished_crt}
use msh.IdxList.Push.{find_unfinished_cases}
use msh.NextMap.{has_next}
use msh.Finish.{finish_crt}
use msh.Pack.{pack_crts}
use msh.Pack.Loop.{pack_crts_lem, pack_crts_finished}
use msh.Schedule.{
  Switch, resume, end_cleanup, counted, switch_to, switch_cleanup, leave, sched_from,
}
use msh.Schedule.Running.{update_map_lem}
use msh.Schedule.Leaving.{taken_out, sched_from_step, leave_running}
use msh.Schedule.Draining.{
  primary_over, primary_over_list, leave_finished, sched_from_primary, switch_cleanup_end,
  switch_cleanup_next,
}
use msh.Schedule.Calling.{taken_out-Keeps, IsCalling, Keeps-IsCalling}
use msh.Schedule.Tables.{pack-Returned, refill-Keeps}

-- Where the coroutine at `p` yields to, as the scheduler reads it.
abbrev pub link_of : ℕ → ℕ → World → ℤ
link_of t p w = to_short (to_size ((w.prim t).ycs p).normal_next / sizeof_yield_ctx)

-- Where a call on world `w` jumps to, in the world `w'` that it leaves: to a coroutine at a position
-- of the array, with the pointers of its context, or to the end of the cleanup, if the primary has
-- finished and no scavenger is left.
pub data Lands (t : ℕ) (w w' : World) : Switch → Type 0 where
  at_crt :
      (k : ℕ)
      → k ≤ max_crt_per_thread
      → Lands t w w' (resume k ((w'.prim t).ycs k).sp ((w'.prim t).ycs k).ip)
  at_end :
      has_next (w.prim t).ycs 0 ≡ false
      → find_unfinished_crt (w'.prim t).idx_list ≡ 0
      → Lands t w w' end_cleanup

Lands-before :
    (t : ℕ) (v w w' : World) (to : Switch)
    → has_next (v.prim t).ycs 0 ≡ has_next (w.prim t).ycs 0
    → Lands t v w' to
    → Lands t w w' to
Lands-before t v w w' to same (at_crt k hi) = at_crt k hi
Lands-before t v w w' to same (at_end over none_) = at_end (sym same ∙ over) none_

-- The call of the scheduler comes to a jump.
pub record Jumps (t : ℕ) (w : World) (out : Outcome (Switch × World)) : Type 0 where
  pub to : Switch
  pub after : World
  pub result : out ≡ ok (to, after)
  pub lands : Lands t w after to

switch_to-Jumps :
    (t n : ℕ) (w x : World) → n ≤ max_crt_per_thread → Jumps t w (switch_to t (pos n) x)
unfolding switch_to
switch_to-Jumps t n w x hi =
    let inside : ltb max_crt_per_thread n ≡ false = ground arith in
    record {
      to = resume n ((x.prim t).ycs n).sp ((x.prim t).ycs n).ip;
      after = record x { cur_crt_pos = update x.cur_crt_pos t (pos n) };
      result = rw inside refl;
      lands = at_crt n hi;
    }

switch_cleanup-Jumps :
    (t : ℕ) (w x : World)
    → (find_unfinished_crt (x.prim t).idx_list ≡ 0 → has_next (w.prim t).ycs 0 ≡ false)
    → Jumps t w (switch_cleanup t (find_unfinished_crt (x.prim t).idx_list) x)
switch_cleanup-Jumps t w x over = elim (find_unfinished_cases (x.prim t).idx_list) [
  | inl all ↦ record {
    to = end_cleanup;
    after = record x { cur_crt_pos = update x.cur_crt_pos t (pos 0) };
    result = ap (λ c. switch_cleanup t c x) all.result ∙ switch_cleanup_end t x;
    lands = at_end (over all.result) all.result;
  }
  | inr (p, u) ↦ record {
    to = resume p ((x.prim t).ycs p).sp ((x.prim t).ycs p).ip;
    after = record x { cur_crt_pos = update x.cur_crt_pos t (pos p) };
    result = ap (λ c. switch_cleanup t c x) u.result ∙ switch_cleanup_next t p x u.lower u.upper;
    lands = at_crt p u.upper;
  }
]

module _ (L : Loader) (t : ℕ) where
  leave-Jumps :
      (n : ℤ) (v : World)
      → IsCalling L t v
      → (has_next (v.prim t).ycs 0 ≡ true → (k : ℕ) × (k ≤ max_crt_per_thread) × (n ≡ pos k))
      → Jumps t v (leave L t n v)
  leave-Jumps n v c link = elim (Bool-cases (has_next (v.prim t).ycs 0)) [
    | inl runs ↦
        let (x, refilled, keeps, still, packed) = refill-Keeps L t v c runs in
        let (k, hi, e) = link runs in
        let j = switch_to-Jumps t k v x hi in
        record {
          to = j.to;
          after = j.after;
          result = leave_running L t n v x refilled still ∙ ap (λ m. switch_to t m x) e ∙ j.result;
          lands = j.lands;
        }
    | inr over ↦
        let j = switch_cleanup-Jumps t v v (λ e. over) in
        record {
          to = j.to;
          after = j.after;
          result = leave_finished L t n v over ∙ j.result;
          lands = j.lands;
        }
  ]

  -- A pack returns, whether it does anything or not.
  pack_returns : (v : World) → IsCalling L t v → (x : World) × (pack_crts L t v ≡ ok x)
  pack_returns v c = elim (Bool-cases (has_next (v.prim t).ycs 0)) [
    | inl runs ↦
        let (x, called, k, packed) = pack_crts_lem L t v c.hosting c.linked runs in (x, called)
    | inr over ↦ (v, pack_crts_finished L t v over)
  ]

  -- Neither what is taken out nor the packing tells whether the primary runs.
  taken_runs :
      (p : ℕ) (w : World)
      → 1 ≤ p
      → has_next ((taken_out t p w).prim t).ycs 0 ≡ has_next (w.prim t).ycs 0
  unfolding taken_out finish_crt
  taken_runs p w lo = (update_map_lem t (finish_crt t p (counted w))).runs ∙ ground arith

  pack_runs :
      (v x : World)
      → IsCalling L t v
      → pack_crts L t v ≡ ok x
      → has_next (x.prim t).ycs 0 ≡ has_next (v.prim t).ycs 0
  pack_runs v x c e = elim (Bool-cases (has_next (v.prim t).ycs 0)) [
    | inl runs ↦
        let (y, called, k, packed) = pack_crts_lem L t v c.hosting c.linked runs in
        subst (λ (z : World). has_next (z.prim t).ycs 0 ≡ has_next (v.prim t).ycs 0)
          (ok_inj (sym called ∙ e)) k.primary_runs
    | inr over ↦
        ap (λ (z : World). has_next (z.prim t).ycs 0)
          (ok_inj (sym e ∙ pack_crts_finished L t v over))
  ]

  sched_later-Jumps :
      (p : ℕ) (w : World)
      → IsCalling L t w
      → 1 ≤ p
      → p ≤ max_crt_per_thread
      → (has_next (w.prim t).ycs 0 ≡ true
          → (k : ℕ) × (k ≤ max_crt_per_thread) × (link_of t p w ≡ pos k))
      → Jumps t w (sched_from L t p w)
  sched_later-Jumps p w c lo hi link =
      let k = taken_out-Keeps L t p w lo hi c.hosting c.linked in
      let c1 = Keeps-IsCalling c k in
      let (v, packed) = pack_returns (taken_out t p w) c1 in
      let r = pack-Returned L t (taken_out t p w) v k.hosting k.linked packed in
      let same : has_next (v.prim t).ycs 0 ≡ has_next (w.prim t).ycs 0 =
        pack_runs (taken_out t p w) v c1 packed ∙ taken_runs p w lo in
      let j =
        leave-Jumps (link_of t p w) v (Keeps-IsCalling c1 r.keeps)
          (λ runs. link (sym same ∙ runs)) in
      record {
        to = j.to;
        after = j.after;
        result =
            sched_from_step L t p w lo hi
            ∙ ap (λ (m : Outcome World). m >>= leave L t (link_of t p w)) packed
            ∙ j.result;
        lands = Lands-before t v w j.after j.to same j.lands;
      }

  -- A return from a position within the array comes to a jump, if, while the primary runs, the link
  -- there is that of a position, too, and what is taken for the primary comes back with a scavenger
  -- left, or when the primary has finished.
  pub sched_from-Jumps :
      (p : ℕ) (w : World)
      → IsCalling L t w
      → p ≤ max_crt_per_thread
      → (has_next (w.prim t).ycs 0 ≡ true
          → 1 ≤ p
          → (k : ℕ) × (k ≤ max_crt_per_thread) × (link_of t p w ≡ pos k))
      → (p ≡ 0 → find_unfinished_crt (w.prim t).idx_list ≡ 0 → has_next (w.prim t).ycs 0 ≡ false)
      → Jumps t w (sched_from L t p w)
  sched_from-Jumps p w c hi link over = elim (Bool-cases (p == 0)) [
    | inl first ↦
        let x = primary_over t w in
        let same = ap find_unfinished_crt (primary_over_list t w) in
        let j = switch_cleanup-Jumps t w x (λ e. over (==→eq p 0 first) (sym same ∙ e)) in
        record {
          to = j.to;
          after = j.after;
          result =
              ap (λ q. sched_from L t q w) (==→eq p 0 first)
              ∙ sched_from_primary L t w (c.hosting.reserved t)
              ∙ ap (λ n. switch_cleanup t n x) (sym same)
              ∙ j.result;
          lands = j.lands;
        }
    | inr later ↦ sched_later-Jumps p w c (ground arith) hi (λ runs. link runs (ground arith))
  ]
