-- ===== src/Finish.antt =====
-- libmsh/msh.c: `tl_finish_crt`, what the scheduler does first with a coroutine that has returned.
use msh.Prelude.{false, ℕ, ◌≤◌, ◌≡◌, refl, true, none, some, ◌∷◌, minus_one, arith}
use msh.Memory.{max_crt_per_thread, World, put_scav, put_yc, put_idx}
use msh.Hosting.{runs_at, idx_at, IsHosting}
use msh.Hosting.Steps.{Same, Detach, Detach-IsHosting}

-- `tl_finish_crt(p)` on thread `t`; index -1 stands for the primary.
unfoldable pub finish_crt : ℕ → ℕ → World → World
finish_crt t p w =
    let w1 = put_yc t p (record ((w.prim t).ycs p) { normal_next = minus_one }) w in
    elim (idx_at w t p) [
      | none ↦ w1
      | some i ↦
          let w2 = put_idx t p none w1 in
          let w3 = put_scav i (record (w2.scav i) { yc = none; finished = true }) w2 in
          record w3 { closed = (w3.scav i).lib_handle ∷ w3.closed }
    ]

-- What the end of the scavenger at `p` changes.
pub record Finished (t p i : ℕ) (w w' : World) : Type 0 where
  pub detach : Detach w w' t p i
  pub closed : w'.closed ≡ (w.scav i).lib_handle ∷ w.closed
  pub primary : (w'.prim t).ycs 0 ≡ (w.prim t).ycs 0
  pub flags : (s : ℕ) → (w'.prim s).reallocatable ≡ (w.prim s).reallocatable
  pub strays : w'.strays ≡ w.strays
  pub ints : w'.ints ≡ w.ints

-- When the scavenger at `p` finishes, its slot is free, it is marked finished, its object is
-- closed, the primary's context, the flags and the symbols stay, and no other scavenger is touched.
pub finish_crt_scavenger :
    (t p i : ℕ) (w : World) → 1 ≤ p → idx_at w t p ≡ some i → Finished t p i w (finish_crt t p w)
unfolding finish_crt
finish_crt_scavenger t p i w lo was = record {
  detach = record {
    idx = λ s q. ground arith;
    runs = λ s q lo'. ground arith;
    slot = λ j. ground arith;
    finished = λ j. ground arith;
    handle = λ j. ground arith;
  };
  closed = ground arith;
  primary = ground arith;
  flags = λ s. ground arith;
  strays = ground arith;
  ints = ground arith;
}

-- At the primary's position only the mark in its context is set.
pub finish_crt_primary :
    (t : ℕ) (w : World)
    → idx_at w t 0 ≡ none
    → finish_crt t 0 w ≡ put_yc t 0 (record ((w.prim t).ycs 0) { normal_next = minus_one }) w
unfolding finish_crt
finish_crt_primary t w h = rw (h, finish_crt) refl

-- When a hosted scavenger finishes, the tables stay consistent.
pub finish_crt-IsHosting :
    (t p i : ℕ) (w : World)
    → IsHosting w
    → 1 ≤ p
    → p ≤ max_crt_per_thread
    → idx_at w t p ≡ some i
    → IsHosting (finish_crt t p w)
finish_crt-IsHosting t p i w h lo hi was =
    Detach-IsHosting h lo hi (finish_crt_scavenger t p i w lo was).detach was

-- At a free position the mark is set again, and nothing changes of who hosts whom.
pub finish_crt_free :
    (t p : ℕ) (w : World)
    → 1 ≤ p
    → idx_at w t p ≡ none
    → runs_at w t p ≡ false
    → Same w (finish_crt t p w)
unfolding finish_crt
finish_crt_free t p w lo free down = record {
  idx = λ s q. ground arith;
  runs = λ s q lo'. ground arith;
  slot = λ j. ground arith;
  finished = λ j. ground arith;
  handle = λ j. ground arith;
}

pub finish_crt_flags :
    (t p : ℕ) (w : World) (s : ℕ)
    → ((finish_crt t p w).prim s).reallocatable ≡ (w.prim s).reallocatable
unfolding finish_crt
finish_crt_flags t p w s = ground arith
