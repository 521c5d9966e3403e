-- ===== src/Pack/Packing.antt =====
-- What packing does, and how far it has got.
use msh.Prelude.{
  ℕ, ◌+◌, ◌-◌, ◌<◌, ◌≤◌, ◌≡◌, inl, inr, refl, ◌∙◌, true, false, ◌==◌, none, some, Miss, Bool-cases,
  arith,
}
use msh.Memory.{max_crt_per_thread, World, Loader}
use msh.IdxList.{IdxList, occupied}
use msh.IdxList.Order.{occupants, occupants_move}
use msh.NextMap.{has_next}
use msh.Hosting.{idx_at, IsHosting}
use msh.Hosting.Steps.{Transfer, Transfer-IsHosting}
use msh.Symbols.Frame.{IsLinked, IsLinked-handle}
use msh.Pack.Hosted.{Moved}

-- Below `p`, a position with a scavenger anywhere above it has one itself.
abbrev pub Settled : IdxList → ℕ → Type 0
Settled l p =
    (q r : ℕ)
    → 1 ≤ q
    → q < p
    → q < r
    → r ≤ max_crt_per_thread
    → occupied l r ≡ true
    → occupied l q ≡ true

-- What packing does to thread `t`, and what it leaves alone.
pub record Packing (L : Loader) (t : ℕ) (w w' : World) : Type 0 where
  pub hosting : IsHosting w'
  pub linked : IsLinked L w'
  pub order :
      occupants (w'.prim t).idx_list max_crt_per_thread 1
      ≡ occupants (w.prim t).idx_list max_crt_per_thread 1
  pub others : (s q : ℕ) → (t == s) ≡ false → idx_at w' s q ≡ idx_at w s q
  pub flags : (s : ℕ) → (w'.prim s).reallocatable ≡ (w.prim s).reallocatable
  pub finished : (j : ℕ) → (w'.scav j).finished ≡ (w.scav j).finished
  pub primary_sp : ((w'.prim t).ycs 0).sp ≡ ((w.prim t).ycs 0).sp
  pub primary_ip : ((w'.prim t).ycs 0).ip ≡ ((w.prim t).ycs 0).ip
  pub primary_runs : has_next (w'.prim t).ycs 0 ≡ has_next (w.prim t).ycs 0

module _ {L : Loader} {t : ℕ} where
  pub Packing-refl : {w : World} → IsHosting w → IsLinked L w → Packing L t w w
  Packing-refl h linked = record {
    hosting = h;
    linked = linked;
    order = refl;
    others = λ s q e. refl;
    flags = λ s. refl;
    finished = λ j. refl;
    primary_sp = refl;
    primary_ip = refl;
    primary_runs = refl;
  }

  pub Packing-trans : {w w' w'' : World} → Packing L t w w' → Packing L t w' w'' → Packing L t w w''
  Packing-trans d e = record {
    hosting = e.hosting;
    linked = e.linked;
    order = e.order ∙ d.order;
    others = λ s q x. e.others s q x ∙ d.others s q x;
    flags = λ s. e.flags s ∙ d.flags s;
    finished = λ j. e.finished j ∙ d.finished j;
    primary_sp = e.primary_sp ∙ d.primary_sp;
    primary_ip = e.primary_ip ∙ d.primary_ip;
    primary_runs = e.primary_runs ∙ d.primary_runs;
  }

  pub Moved-Packing :
      {w w' : World} {a b i : ℕ}
      → 1 ≤ a
      → a < b
      → b ≤ max_crt_per_thread
      → IsHosting w
      → IsLinked L w
      → idx_at w t a ≡ none
      → idx_at w t b ≡ some i
      → ((r : ℕ) → a < r → r < b → idx_at w t r ≡ none)
      → Moved t a b i w w'
      → Packing L t w w'
  Moved-Packing {w} {w'} {a} {b} {i} lo mid hi h linked hole was gap m = record {
    hosting = Transfer-IsHosting h (omega arith) hi lo (omega arith) m.transfer was hole;
    linked = IsLinked-handle linked m.transfer.handle;
    order =
        occupants_move (w.prim t).idx_list (w'.prim t).idx_list max_crt_per_thread 1 a b i lo mid
          (omega arith) hole was gap (ground (arith, m.transfer.idx t a))
          (ground (arith, m.transfer.idx t b)) (λ r na nb. ground (arith, m.transfer.idx t r));
    others = λ s q x. ground (arith, m.transfer.idx s q);
    flags = m.flags;
    finished = m.transfer.finished;
    primary_sp = m.primary_sp;
    primary_ip = m.primary_ip;
    primary_runs = m.primary_runs;
  }

pub Settled-stay : (l : IdxList) (p : ℕ) → Settled l p → occupied l p ≡ true → Settled l (p + 1)
Settled-stay l p s e q r lo hi above top x = elim (Bool-cases (q == p)) [
  | inl same ↦ ground arith
  | inr below ↦ s q r lo (ground arith) above top x
]

pub Settled-empty :
    (l : IdxList) (p : ℕ)
    → Settled l p
    → Miss (occupied l) (max_crt_per_thread - p) (p + 1)
    → Settled l (p + 1)
Settled-empty l p s miss q r lo hi above top x = elim (Bool-cases (q == p)) [
  | inl same ↦ ground (arith, miss r)
  | inr below ↦ s q r lo (ground arith) above top x
]

pub Settled-moved :
    (t p b i : ℕ) (w w' : World)
    → Settled (w.prim t).idx_list p
    → p < b
    → b ≤ max_crt_per_thread
    → idx_at w t b ≡ some i
    → Transfer w w' t b t p i
    → Settled (w'.prim t).idx_list (p + 1)
Settled-moved t p b i w w' s mid bound was m q r lo hi above top x =
    ground (arith, m.idx t q, m.idx t r, s q r lo, s q b lo)
