-- ===== src/Schedule/Leaving.antt =====
-- The steps of a return: what is taken out, and the jump.
use msh.Prelude.{
  ℕ, ◌/◌, ◌≤◌, ◌≡◌, refl, ap, ◌∙◌, true, false, ◌==◌, ltb, update, ℤ, pos, to_short, to_size,
  Outcome, ok, ◌>>=◌, arith,
}
use msh.Memory.{max_crt_per_thread, sizeof_yield_ctx, World, Loader}
use msh.NextMap.{has_next}
use msh.Hosting.{IsHosting}
use msh.Finish.{finish_crt}
use msh.Pack.{pack_crts}
use msh.Schedule.{resume, counted, update_map, switch_to, refill, leave, sched_from}
use msh.Schedule.Running.{IsReady}

-- The tables after `tl_finish_crt(p)` and `tl_update_next_map`.
unfoldable pub taken_out : ℕ → ℕ → World → World
taken_out t p w = update_map t (finish_crt t p (counted w))

pub counted-IsHosting : {w : World} → IsHosting w → IsHosting (counted w)
counted-IsHosting h = record {
  host = h.host;
  back = h.back;
  reserved = h.reserved;
  live = h.live;
  unfinished = h.unfinished;
  loaded = h.loaded;
}

-- The jump while the primary runs goes by the link of the returned coroutine.
pub leave_running :
    (L : Loader) (t : ℕ) (n : ℤ) (v x : World)
    → refill L t v ≡ ok x
    → has_next (x.prim t).ycs 0 ≡ true
    → leave L t n v ≡ switch_to t n x
unfolding leave
leave_running L t n v x e running = rw (leave, e, running) refl

pub sched_from_step :
    (L : Loader) (t p : ℕ) (w : World)
    → 1 ≤ p
    → p ≤ max_crt_per_thread
    → sched_from L t p w ≡ (
        pack_crts L t (taken_out t p w)
        >>= leave L t (to_short (to_size ((w.prim t).ycs p).normal_next / sizeof_yield_ctx)))
unfolding sched_from taken_out
sched_from_step L t p w lo hi =
    let past : (p == 0) ≡ false = ground arith in
    let inside : ltb max_crt_per_thread p ≡ false = ground arith in
    rw (sched_from, past, inside) refl

pub sched_from_running :
    (L : Loader) (t p : ℕ) (w v x : World)
    → 1 ≤ p
    → p ≤ max_crt_per_thread
    → pack_crts L t (taken_out t p w) ≡ ok v
    → refill L t v ≡ ok x
    → has_next (x.prim t).ycs 0 ≡ true
    → ((w.prim t).ycs p).normal_next ≡ pos 0
    → sched_from L t p w ≡ switch_to t (pos 0) x
sched_from_running L t p w v x lo hi e e' running zero_next =
    sched_from_step L t p w lo hi
    ∙ ap
        (λ (m : Outcome World).
          m >>= leave L t (to_short (to_size ((w.prim t).ycs p).normal_next / sizeof_yield_ctx)))
        e
    ∙ ap (λ (n : ℤ). leave L t (to_short (to_size n / sizeof_yield_ctx)) v) zero_next
    ∙ leave_running L t (pos 0) v x e' running

pub switch_to_primary :
    (t : ℕ) (w : World)
    → switch_to t (pos 0) w
      ≡ ok (
        resume 0 ((w.prim t).ycs 0).sp ((w.prim t).ycs 0).ip,
        record w { cur_crt_pos = update w.cur_crt_pos t (pos 0) },
      )
unfolding switch_to
switch_to_primary t w = refl

pub cur_crt_pos-IsReady :
    {L : Loader} {t : ℕ} {w : World} (f : ℕ → ℤ)
    → IsReady L t w
    → IsReady L t (record w { cur_crt_pos = f })
cur_crt_pos-IsReady f r = record {
  hosting = record {
    host = r.hosting.host;
    back = r.hosting.back;
    reserved = r.hosting.reserved;
    live = r.hosting.live;
    unfinished = r.hosting.unfinished;
    loaded = r.hosting.loaded;
  };
  linked = record { has = r.linked.has };
  donors = r.donors;
  own = r.own;
  running = r.running;
}
