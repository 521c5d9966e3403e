-- ===== src/Hosting/Steps.antt =====
-- The ways in which the runtime changes who hosts whom, each as equations between the tables before
-- and after, and that each keeps `IsHosting`.
use msh.Prelude.{
  ℕ, ◌≤◌, ◌≡◌, inl, inr, refl, ◌∙◌, sym, true, false, ◌==◌, if◌then◌else◌, none, some, arith,
  Bool-cases,
}
use msh.Memory.{max_crt_per_thread, World, yield_ptr}
use msh.Hosting.{idx_at, runs_at, same_slot, IsHosting}

-- Nothing of it changes.
pub record Same (w w' : World) : Type 0 where
  pub idx : (s q : ℕ) → idx_at w' s q ≡ idx_at w s q
  pub runs : (s q : ℕ) → 1 ≤ q → runs_at w' s q ≡ runs_at w s q
  pub slot : (j : ℕ) → (w'.scav j).yc ≡ (w.scav j).yc
  pub finished : (j : ℕ) → (w'.scav j).finished ≡ (w.scav j).finished
  pub handle : (j : ℕ) → (w'.scav j).lib_handle ≡ (w.scav j).lib_handle

-- Scavenger `i` comes to position `p` of thread `t`.
pub record Attach (w w' : World) (t p i : ℕ) : Type 0 where
  pub idx : (s q : ℕ) → idx_at w' s q ≡ (if same_slot t p s q then some i else idx_at w s q)
  pub runs :
      (s q : ℕ) → 1 ≤ q → runs_at w' s q ≡ (if same_slot t p s q then true else runs_at w s q)
  pub slot : (j : ℕ) → (w'.scav j).yc ≡ (if i == j then some (yield_ptr t p) else (w.scav j).yc)
  pub finished : (j : ℕ) → (w'.scav j).finished ≡ (w.scav j).finished
  pub handle : (j : ℕ) → (w'.scav j).lib_handle ≡ (w.scav j).lib_handle

-- Scavenger `i` leaves position `p` of thread `t`, finished.
pub record Detach (w w' : World) (t p i : ℕ) : Type 0 where
  pub idx : (s q : ℕ) → idx_at w' s q ≡ (if same_slot t p s q then none else idx_at w s q)
  pub runs :
      (s q : ℕ) → 1 ≤ q → runs_at w' s q ≡ (if same_slot t p s q then false else runs_at w s q)
  pub slot : (j : ℕ) → (w'.scav j).yc ≡ (if i == j then none else (w.scav j).yc)
  pub finished : (j : ℕ) → (w'.scav j).finished ≡ (if i == j then true else (w.scav j).finished)
  pub handle : (j : ℕ) → (w'.scav j).lib_handle ≡ (w.scav j).lib_handle

-- Scavenger `i` goes from position `p` of `t` to position `p'` of `t'`.
pub record Transfer (w w' : World) (t p t' p' i : ℕ) : Type 0 where
  pub idx :
      (s q : ℕ)
      → idx_at w' s q
        ≡ (if same_slot t' p' s q then some i else if same_slot t p s q then none else idx_at w s q)
  pub runs :
      (s q : ℕ)
      → 1 ≤ q
      → runs_at w' s q
        ≡ (if same_slot t' p' s q then true else if same_slot t p s q then false else runs_at w s q)
  pub slot : (j : ℕ) → (w'.scav j).yc ≡ (if i == j then some (yield_ptr t' p') else (w.scav j).yc)
  pub finished : (j : ℕ) → (w'.scav j).finished ≡ (w.scav j).finished
  pub handle : (j : ℕ) → (w'.scav j).lib_handle ≡ (w.scav j).lib_handle

module _ {w w' : World} (h : IsHosting w) where
  pub Same-IsHosting : Same w w' → IsHosting w'
  Same-IsHosting e = record {
    host = λ t p i lo hi x. e.slot i ∙ h.host t p i lo hi (sym (e.idx t p) ∙ x);
    back = λ i t p x. ground (arith, e.idx t p, h.back i t p (sym (e.slot i) ∙ x));
    reserved = λ t. e.idx t 0 ∙ h.reserved t;
    live = λ t p lo hi. ground (arith, e.runs t p lo, e.idx t p, h.live t p lo hi);
    unfinished = λ t p i lo hi x. e.finished i ∙ h.unfinished t p i lo hi (sym (e.idx t p) ∙ x);
    loaded = λ t p i lo hi x.
        let (g, y) = h.loaded t p i lo hi (sym (e.idx t p) ∙ x) in (g, e.handle i ∙ y);
  }

  module _ {t p i : ℕ} (lo : 1 ≤ p) (hi : p ≤ max_crt_per_thread) where
    pub Attach-IsHosting :
        Attach w w' t p i
        → idx_at w t p ≡ none
        → (w.scav i).yc ≡ none
        → (w.scav i).finished ≡ false
        → (g : ℕ) × ((w.scav i).lib_handle ≡ some g)
        → IsHosting w'
    Attach-IsHosting a free unhosted open_ (g, has) = record {
      host = λ s q j lo' hi' x. ground (arith, a.idx s q, a.slot j, h.host s q j lo' hi');
      back = λ j s q x. ground (arith, a.idx s q, a.slot j, h.back j s q);
      reserved = λ s. ground (arith, a.idx s 0, h.reserved s);
      live = λ s q lo' hi'. ground (arith, a.idx s q, a.runs s q lo', h.live s q lo' hi');
      unfinished =
          λ s q j lo' hi' x. ground (arith, a.idx s q, a.finished j, h.unfinished s q j lo' hi');
      loaded = λ s q j lo' hi' x. elim (Bool-cases (same_slot t p s q)) [
        | inl at_ ↦ (g, ground (arith, a.idx s q, a.handle j))
        | inr off ↦
            let (g', y) = h.loaded s q j lo' hi' (ground (arith, a.idx s q)) in (g', a.handle j ∙ y)
      ];
    }

    pub Detach-IsHosting : Detach w w' t p i → idx_at w t p ≡ some i → IsHosting w'
    Detach-IsHosting d was = record {
      host = λ s q j lo' hi' x.
          ground (arith, d.idx s q, d.slot j, h.host s q j lo' hi', h.host t p i lo hi);
      back = λ j s q x. ground (arith, d.idx s q, d.slot j, h.back j s q);
      reserved = λ s. ground (arith, d.idx s 0, h.reserved s);
      live = λ s q lo' hi'. ground (arith, d.idx s q, d.runs s q lo', h.live s q lo' hi');
      unfinished = λ s q j lo' hi' x. ground (
        arith,
        d.idx s q,
        d.finished j,
        h.unfinished s q j lo' hi',
        h.host s q j lo' hi',
        h.host t p i lo hi,
      );
      loaded = λ s q j lo' hi' x.
          let (g', y) = h.loaded s q j lo' hi' (ground (arith, d.idx s q)) in (g', d.handle j ∙ y);
    }

    pub Transfer-IsHosting :
        {t' p' : ℕ}
        → 1 ≤ p'
        → p' ≤ max_crt_per_thread
        → Transfer w w' t p t' p' i
        → idx_at w t p ≡ some i
        → idx_at w t' p' ≡ none
        → IsHosting w'
    Transfer-IsHosting {t'} {p'} lo2 hi2 m was free = record {
      host = λ s q j lo' hi' x.
          ground (arith, m.idx s q, m.slot j, h.host s q j lo' hi', h.host t p i lo hi);
      back = λ j s q x. ground (arith, m.idx s q, m.slot j, h.back j s q);
      reserved = λ s. ground (arith, m.idx s 0, h.reserved s);
      live = λ s q lo' hi'. ground (arith, m.idx s q, m.runs s q lo', h.live s q lo' hi');
      unfinished = λ s q j lo' hi' x.
          ground
            (arith, m.idx s q, m.finished j, h.unfinished s q j lo' hi', h.unfinished t p i lo hi);
      loaded = λ s q j lo' hi' x. elim (Bool-cases (same_slot t' p' s q)) [
        | inl at_ ↦
            let (g, y) = h.loaded t p i lo hi was in (g, ground (arith, m.idx s q, m.handle j))
        | inr off ↦
            let (g', y) = h.loaded s q j lo' hi' (ground (arith, m.idx s q)) in (g', m.handle j ∙ y)
      ];
    }

pub Same-refl : (w : World) → Same w w
Same-refl w = record {
  idx = λ s q. refl;
  runs = λ s q lo. refl;
  slot = λ j. refl;
  finished = λ j. refl;
  handle = λ j. refl;
}

module _ {w w' w'' : World} where
  pub Same-trans : Same w w' → Same w' w'' → Same w w''
  Same-trans d e = record {
    idx = λ s q. e.idx s q ∙ d.idx s q;
    runs = λ s q lo. e.runs s q lo ∙ d.runs s q lo;
    slot = λ j. e.slot j ∙ d.slot j;
    finished = λ j. e.finished j ∙ d.finished j;
    handle = λ j. e.handle j ∙ d.handle j;
  }

  pub Transfer-Same :
      {t p t' p' i : ℕ} → Transfer w w' t p t' p' i → Same w' w'' → Transfer w w'' t p t' p' i
  Transfer-Same d e = record {
    idx = λ s q. e.idx s q ∙ d.idx s q;
    runs = λ s q lo. e.runs s q lo ∙ d.runs s q lo;
    slot = λ j. e.slot j ∙ d.slot j;
    finished = λ j. e.finished j ∙ d.finished j;
    handle = λ j. e.handle j ∙ d.handle j;
  }

  pub Attach-Same : {t p i : ℕ} → Attach w w' t p i → Same w' w'' → Attach w w'' t p i
  Attach-Same d e = record {
    idx = λ s q. e.idx s q ∙ d.idx s q;
    runs = λ s q lo. e.runs s q lo ∙ d.runs s q lo;
    slot = λ j. e.slot j ∙ d.slot j;
    finished = λ j. e.finished j ∙ d.finished j;
    handle = λ j. e.handle j ∙ d.handle j;
  }
