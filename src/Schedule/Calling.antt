-- ===== src/Schedule/Calling.antt =====
-- The tables when a coroutine is taken out, and the thread that calls.
use msh.Prelude.{
  ℕ, ◌≤◌, ◌≡◌, inl, inr, ◌∙◌, sym, true, false, ◌==◌, update, ℤ, pos, negsuc, ok, Bool-cases,
  Option-cases, arith,
}
use msh.Memory.{max_crt_per_thread, World, Loader}
use msh.IdxList.Ends.{IsPacked}
use msh.NextMap.{has_next}
use msh.Hosting.{idx_at, IsHosting}
use msh.Hosting.Gain.{IsPacked-congr}
use msh.Hosting.Keeps.{Keeps, Keeps-trans, Keeps-Same}
use msh.Symbols.Frame.{IsLinked, IsLinked-handle}
use msh.Finish.{
  finish_crt, finish_crt_free, finish_crt_flags, finish_crt_scavenger, finish_crt-IsHosting,
}
use msh.Allocate.Donors.{DonorsPacked}
use msh.Schedule.{Switch, counted, switch_to, switch_cleanup}
use msh.Schedule.Running.{update_map_lem}
use msh.Schedule.Leaving.{taken_out}

-- A jump changes `cur_crt_pos` alone.
pub switch_to_world :
    (t : ℕ) (n : ℤ) (w w' : World) (s : Switch)
    → switch_to t n w ≡ ok (s, w')
    → (f : ℕ → ℤ) × (record w { cur_crt_pos = f } ≡ w')
unfolding switch_to
switch_to_world t (negsuc n) w w' s e = cc
switch_to_world t (pos c) w w' s e = (update w.cur_crt_pos t (pos c), ground arith)

pub switch_cleanup_world :
    (t c : ℕ) (w w' : World) (s : Switch)
    → switch_cleanup t c w ≡ ok (s, w')
    → (f : ℕ → ℤ) × (record w { cur_crt_pos = f } ≡ w')
unfolding switch_cleanup
switch_cleanup_world t c w w' s e = elim (Bool-cases (c == 0)) [
  | inl end ↦ (update w.cur_crt_pos t (pos 0), ground arith)
  | inr more ↦ switch_to_world t (pos c) w w' s (rw more at e)
]

module _ (L : Loader) (t p : ℕ) (w : World) (lo : 1 ≤ p) (hi : p ≤ max_crt_per_thread)
    (h : IsHosting w) (linked : IsLinked L w) where
  counted-IsLinked : IsLinked L (counted w)
  counted-IsLinked = record { has = linked.has }

  counted-IsHosting : IsHosting (counted w)
  counted-IsHosting = record {
    host = h.host;
    back = h.back;
    reserved = h.reserved;
    live = h.live;
    unfinished = h.unfinished;
    loaded = h.loaded;
  }

  finish-Keeps : Keeps L t (counted w) (finish_crt t p (counted w))
  finish-Keeps = elim (Option-cases (idx_at w t p)) [
    | inl free ↦
        Keeps-Same counted-IsHosting counted-IsLinked
          (finish_crt_free t p (counted w) lo free (ground (arith, h.live t p lo hi)))
          (finish_crt_flags t p (counted w))
    | inr (i, was) ↦
        let done = finish_crt_scavenger t p i (counted w) lo was in
        record {
          hosting = finish_crt-IsHosting t p i (counted w) counted-IsHosting lo hi was;
          linked = IsLinked-handle linked done.detach.handle;
          flags = finish_crt_flags t p (counted w);
          packed = λ s off packed.
              IsPacked-congr (w.prim s).idx_list ((finish_crt t p (counted w)).prim s).idx_list
                (λ q. ground (arith, done.detach.idx s q)) packed;
          finished = λ j e. ground (arith, done.detach.finished j);
        }
  ]

  pub taken_out-Keeps : Keeps L t w (taken_out t p w)
  unfolding taken_out
  taken_out-Keeps =
      let m = update_map_lem t (finish_crt t p (counted w)) in
      let k =
        Keeps-trans finish-Keeps
          (Keeps-Same finish-Keeps.hosting finish-Keeps.linked m.same m.flags) in
      record {
        hosting = k.hosting;
        linked = k.linked;
        flags = k.flags;
        packed = k.packed;
        finished = k.finished;
      }

-- The tables as an operation of thread `t` finds them: nobody may take from `t` meanwhile.
pub record IsCalling (L : Loader) (t : ℕ) (w : World) : Type 0 where
  pub hosting : IsHosting w
  pub linked : IsLinked L w
  pub donors : DonorsPacked w
  pub own : (w.prim t).reallocatable ≡ false

pub Keeps-IsCalling :
    {L : Loader} {t : ℕ} {w w' : World} → IsCalling L t w → Keeps L t w w' → IsCalling L t w'
Keeps-IsCalling {t} {w} {w'} c k = record {
  hosting = k.hosting;
  linked = k.linked;
  donors =
      λ s up. k.packed s (ground (arith, k.flags t, c.own)) (c.donors s (sym (k.flags s) ∙ up));
  own = k.flags t ∙ c.own;
}

-- What a return through the scheduler leaves; the list of a thread whose primary runs has no hole.
pub record Returned (L : Loader) (t : ℕ) (w w' : World) : Type 0 where
  pub keeps : Keeps L t w w'
  pub packed : has_next (w'.prim t).ycs 0 ≡ true → IsPacked (w'.prim t).idx_list
