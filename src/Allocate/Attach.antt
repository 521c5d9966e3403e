-- ===== src/Allocate/Attach.antt =====
-- An entry of the pool that comes to a thread.
use mathlib.Core.Path.{subst}
use msh.Prelude.{
  ℕ, ◌+◌, ◌≡◌, inl, inr, refl, ap, ◌∙◌, not, true, false, ◌==◌, ==→eq, is_some, update, Option,
  none, some, pos, is_minus_one, Outcome, ok, ◌>>=◌, Bool-cases, arith,
}
use msh.Memory.{
  max_crt_per_thread, YieldCtx, CoroutineCtx, World, put_scav, put_yc, put_list, yield_ptr, Loader,
}
use msh.IdxList.Ends.{IsPacked, Pushed}
use msh.Hosting.{IsHosting}
use msh.Hosting.Steps.{Attach, Attach-IsHosting}
use msh.Hosting.Gain.{Gain, Gain-SameTables, IsPacked-push, IsPacked-congr, hosted_at}
use msh.Symbols.Frame.{
  SameTables, IsLinked, IsLinked-handle, set_scav_symbol-SameTables, set_scav_symbol_returns,
}
use msh.Allocate.{available, initial_sp, attach_pushed}

-- The tables when entry `i` of the pool comes to position `p` of `t`, its symbols left out.
abbrev pub placed : Loader → ℕ → ℕ → ℕ → World → World
placed L t p i w =
    let w1 = put_list t (update (w.prim t).idx_list p (some i)) w in
    put_yc t p
      (record ((w1.prim t).ycs p) {
        sp = initial_sp L i;
        ip = (w1.scav i).entry;
        normal_next = pos 0;
      })
      w1

abbrev pub own : ℕ → ℕ → ℕ → World → World
own t p i w = put_scav i (record (w.scav i) { yc = some (yield_ptr t p) }) w

own-SameTables :
    (t p i : ℕ) (v v' : World) → SameTables v v' → SameTables (own t p i v) (own t p i v')
own-SameTables t p i v v' e = record {
  scav = λ k. update (e.scav k) i (record (e.scav k i) { yc = some (yield_ptr t p) });
  idx_list = e.idx_list;
  ycs = e.ycs;
  regs = e.regs;
  reallocatable = e.reallocatable;
  max = e.max;
  strays = e.strays;
  finished_cnt = e.finished_cnt;
  closed = e.closed;
}

-- What `available` says of an entry.
pub available_lem :
    (s : CoroutineCtx)
    → available s ≡ true
    → ((g : ℕ) × (s.lib_handle ≡ some g)) × (s.yc ≡ none) × (s.finished ≡ false)
available_lem s e = (loaded s.lib_handle (ground arith), ground arith, ground arith)
  where
    loaded : (x : Option ℕ) → is_some x ≡ true → (g : ℕ) × (x ≡ some g)
    loaded none e = cc
    loaded (some g) e = (g, refl)

module _ (L : Loader) (t i p : ℕ) (w : World) (h : IsHosting w) (linked : IsLinked L w)
    (free : available (w.scav i) ≡ true)
    (pushed : Pushed (w.prim t).idx_list (max_crt_per_thread + 1) i p) where
  pub attach : Attach w (own t p i (placed L t p i w)) t p i
  attach = record {
    idx = λ s q. ground arith;
    runs = λ s q lo. ground arith;
    slot = λ j. ground arith;
    finished = λ j. ground arith;
    handle = λ j. ground arith;
  }

  attach-IsPacked :
      (s : ℕ)
      → IsPacked (w.prim s).idx_list
      → IsPacked ((own t p i (placed L t p i w)).prim s).idx_list
  unfolding attach
  attach-IsPacked s packed_s = elim (Bool-cases (t == s)) [
    | inl here ↦
        subst
          (λ r.
            IsPacked (w.prim r).idx_list
            → IsPacked ((own t p i (placed L t p i w)).prim r).idx_list)
          (==→eq t s here)
          (IsPacked-push (w.prim t).idx_list ((own t p i (placed L t p i w)).prim t).idx_list
            (max_crt_per_thread + 1) i p pushed (λ r. ground (arith, attach.idx t r)))
          packed_s
    | inr off ↦
        IsPacked-congr (w.prim s).idx_list ((own t p i (placed L t p i w)).prim s).idx_list
          (λ r. ground (arith, attach.idx s r)) packed_s
  ]

  placed_primary : ((placed L t p i w).prim t).ycs 0 ≡ (w.prim t).ycs 0
  placed_primary = ground (arith, pushed.lower)

  attach-Gain : Gain L t 1 w (own t p i (placed L t p i w))
  unfolding attach
  attach-Gain = record {
    hosting =
        let (g, unhosted, unfinished) = available_lem (w.scav i) free in
        Attach-IsHosting h pushed.lower (omega (arith, pushed.upper)) attach pushed.was_free
          unhosted unfinished g;
    linked = IsLinked-handle linked attach.handle;
    count =
        hosted_at (w.prim t).idx_list ((own t p i (placed L t p i w)).prim t).idx_list p i
          pushed.lower (omega (arith, pushed.upper)) pushed.was_free
          (λ r. ground (arith, attach.idx t r));
    finished = attach.finished;
    handle = attach.handle;
    owned = λ j x. ground (arith, attach.slot j);
    primary_sp = ap (λ (y : YieldCtx). y.sp) placed_primary;
    primary_ip = ap (λ (y : YieldCtx). y.ip) placed_primary;
    primary_runs = λ r. ap (λ (y : YieldCtx). not (is_minus_one y.normal_next)) placed_primary ∙ r;
    packed = attach-IsPacked;
    flags = λ s. ground arith;
    max = refl;
  }

  pub attach_pushed_lem :
      (w' : World) × (attach_pushed L t i w (update (w.prim t).idx_list p (some i), some p)
        ≡ ok (some w'))
      × Gain L t 1 w w'
      × (is_some (w'.scav i).yc ≡ true)
  unfolding attach_pushed
  attach_pushed_lem =
      let (has, unhosted, unfinished) = available_lem (w.scav i) free in
      let (w3, e) =
        set_scav_symbol_returns L t i p has.0 (placed L t p i w)
          (IsLinked-handle linked (λ j. refl)) has.1 in
      (
        own t p i w3,
        ap (λ (m : Outcome World). m >>= λ v. ok (some (own t p i v))) e,
        Gain-SameTables attach-Gain (
            own-SameTables t p i (placed L t p i w) w3
              (set_scav_symbol-SameTables L t i p (placed L t p i w) w3 e)),
        ground arith,
      )
