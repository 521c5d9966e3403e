-- ===== src/Hosting/Keeps.antt =====
-- What every operation of a thread leaves of the tables, whatever it does to its own scavengers.
use msh.Prelude.{ℕ, ℤ, ◌≡◌, refl, ◌∙◌, true, false, ◌==◌}
use msh.Memory.{World, Loader}
use msh.IdxList.Ends.{IsPacked}
use msh.Hosting.{IsHosting}
use msh.Hosting.Steps.{Same, Same-IsHosting}
use msh.Hosting.Gain.{Gain, IsPacked-congr}
use msh.Symbols.Frame.{IsLinked, IsLinked-handle}

-- An operation of thread `t`: the tables stay consistent and linked, the flags stay, the lists of
-- the others stay packed, and a finished scavenger stays finished.
pub record Keeps (L : Loader) (t : ℕ) (w w' : World) : Type 0 where
  pub hosting : IsHosting w'
  pub linked : IsLinked L w'
  pub flags : (s : ℕ) → (w'.prim s).reallocatable ≡ (w.prim s).reallocatable
  pub packed :
      (s : ℕ) → (t == s) ≡ false → IsPacked (w.prim s).idx_list → IsPacked (w'.prim s).idx_list
  pub finished : (j : ℕ) → (w.scav j).finished ≡ true → (w'.scav j).finished ≡ true

module _ {L : Loader} {t : ℕ} where
  pub Keeps-trans : {w w' w'' : World} → Keeps L t w w' → Keeps L t w' w'' → Keeps L t w w''
  Keeps-trans a b = record {
    hosting = b.hosting;
    linked = b.linked;
    flags = λ s. b.flags s ∙ a.flags s;
    packed = λ s off p. b.packed s off (a.packed s off p);
    finished = λ j e. b.finished j (a.finished j e);
  }

  pub Keeps-Gain : {n : ℕ} {w w' : World} → Gain L t n w w' → Keeps L t w w'
  Keeps-Gain g = record {
    hosting = g.hosting;
    linked = g.linked;
    flags = g.flags;
    packed = λ s off p. g.packed s p;
    finished = λ j e. g.finished j ∙ e;
  }

  -- A step that shows in nothing of who hosts whom.
  pub Keeps-Same :
      {w w' : World}
      → IsHosting w
      → IsLinked L w
      → Same w w'
      → ((s : ℕ) → (w'.prim s).reallocatable ≡ (w.prim s).reallocatable)
      → Keeps L t w w'
  Keeps-Same {w} {w'} h linked same flags = record {
    hosting = Same-IsHosting h same;
    linked = IsLinked-handle linked same.handle;
    flags = flags;
    packed = λ s off p. IsPacked-congr (w.prim s).idx_list (w'.prim s).idx_list (same.idx s) p;
    finished = λ j e. same.finished j ∙ e;
  }

pub Same-cur_crt_pos : (w : World) (f : ℕ → ℤ) → Same w (record w { cur_crt_pos = f })
Same-cur_crt_pos w f = record {
  idx = λ s q. refl;
  runs = λ s q lo. refl;
  slot = λ j. refl;
  finished = λ j. refl;
  handle = λ j. refl;
}
