-- ===== src/Hosting/Gain.antt =====
-- What holds of a thread that has been given scavengers, whichever way they came.
use msh.Prelude.{
  ℕ, ◌+◌, ◌≤◌, ◌≡◌, refl, ap, ◌∙◌, sym, fun_ext, true, ◌==◌, if◌then◌else◌, is_some, none, some,
  arith,
}
use mathlib.Core.Path.{subst}
use msh.Memory.{max_crt_per_thread, YieldCtx, CoroutineCtx, World, Loader}
use msh.IdxList.{IdxList, hosted}
use msh.IdxList.Push.{hosted-push}
use msh.IdxList.Ends.{IsPacked, Pushed, Popped}
use msh.NextMap.{has_next}
use msh.Hosting.{IsHosting}
use msh.Hosting.Steps.{Same-IsHosting}
use msh.Symbols.Frame.{IsLinked, IsLinked-handle, SameTables, SameTables-Same}

pub record Gain (L : Loader) (t n : ℕ) (w w' : World) : Type 0 where
  pub hosting : IsHosting w'
  pub linked : IsLinked L w'
  pub count : hosted (w'.prim t).idx_list ≡ hosted (w.prim t).idx_list + n
  pub finished : (j : ℕ) → (w'.scav j).finished ≡ (w.scav j).finished
  pub handle : (j : ℕ) → (w'.scav j).lib_handle ≡ (w.scav j).lib_handle
  pub owned : (j : ℕ) → is_some (w.scav j).yc ≡ true → is_some (w'.scav j).yc ≡ true
  pub primary_sp : ((w'.prim t).ycs 0).sp ≡ ((w.prim t).ycs 0).sp
  pub primary_ip : ((w'.prim t).ycs 0).ip ≡ ((w.prim t).ycs 0).ip
  pub primary_runs : has_next (w.prim t).ycs 0 ≡ true → has_next (w'.prim t).ycs 0 ≡ true
  pub packed : (s : ℕ) → IsPacked (w.prim s).idx_list → IsPacked (w'.prim s).idx_list
  pub flags : (s : ℕ) → (w'.prim s).reallocatable ≡ (w.prim s).reallocatable
  pub max : w'.max_scav_per_thread ≡ w.max_scav_per_thread

module _ {L : Loader} {t : ℕ} where
  pub Gain-refl : {w : World} → IsHosting w → IsLinked L w → Gain L t 0 w w
  Gain-refl h linked = record {
    hosting = h;
    linked = linked;
    count = omega arith;
    finished = λ j. refl;
    handle = λ j. refl;
    owned = λ j x. x;
    primary_sp = refl;
    primary_ip = refl;
    primary_runs = λ e. e;
    packed = λ s e. e;
    flags = λ s. refl;
    max = refl;
  }

  pub Gain-trans :
      {n m k : ℕ} {w w' w'' : World}
      → Gain L t n w w'
      → Gain L t m w' w''
      → n + m ≡ k
      → Gain L t k w w''
  Gain-trans d e sum = record {
    hosting = e.hosting;
    linked = e.linked;
    count = omega (arith, d.count, e.count);
    finished = λ j. e.finished j ∙ d.finished j;
    handle = λ j. e.handle j ∙ d.handle j;
    owned = λ j x. e.owned j (d.owned j x);
    primary_sp = e.primary_sp ∙ d.primary_sp;
    primary_ip = e.primary_ip ∙ d.primary_ip;
    primary_runs = λ r. e.primary_runs (d.primary_runs r);
    packed = λ s p. e.packed s (d.packed s p);
    flags = λ s. e.flags s ∙ d.flags s;
    max = e.max ∙ d.max;
  }

-- Lists that agree everywhere, as far as it is asked.
pub IsPacked-congr : (l l' : IdxList) → ((q : ℕ) → l' q ≡ l q) → IsPacked l → IsPacked l'
IsPacked-congr l l' e packed = subst IsPacked (sym (fun_ext e)) packed

-- A push to the first free position keeps a list packed, and so does taking its last item.
pub IsPacked-push :
    (l l' : IdxList) (size item p : ℕ)
    → Pushed l size item p
    → ((q : ℕ) → l' q ≡ (if p == q then some item else l q))
    → IsPacked l
    → IsPacked l'
IsPacked-push l l' size item p pushed e packed q r lo mid hi taken =
    ground (arith, e q, e r, pushed.first q lo, packed q r lo)

pub IsPacked-pop :
    (l l' : IdxList) (p item : ℕ)
    → Popped l (max_crt_per_thread + 1) p item
    → ((q : ℕ) → l' q ≡ (if p == q then none else l q))
    → IsPacked l
    → IsPacked l'
IsPacked-pop l l' p item popped e packed q r lo mid hi taken =
    ground (arith, e q, e r, popped.last r, packed q r lo)

pub hosted_at :
    (l l' : IdxList) (p item : ℕ)
    → 1 ≤ p
    → p ≤ max_crt_per_thread
    → l p ≡ none
    → ((q : ℕ) → l' q ≡ (if p == q then some item else l q))
    → hosted l' ≡ hosted l + 1
hosted_at l l' p item lo hi free e = ap hosted (fun_ext e) ∙ hosted-push l p item lo hi free

pub Gain-SameTables :
    {L : Loader} {t n : ℕ} {w w' w'' : World}
    → Gain L t n w w'
    → SameTables w' w''
    → Gain L t n w w''
Gain-SameTables {t} g e = record {
  hosting = Same-IsHosting g.hosting (SameTables-Same e);
  linked = IsLinked-handle g.linked (λ j. λ k. (e.scav k j).lib_handle);
  count = ap hosted (e.idx_list t) ∙ g.count;
  finished = λ j. ap (λ (s : ℕ → CoroutineCtx). (s j).finished) e.scav ∙ g.finished j;
  handle = λ j. ap (λ (s : ℕ → CoroutineCtx). (s j).lib_handle) e.scav ∙ g.handle j;
  owned = λ j x. ap (λ (s : ℕ → CoroutineCtx). is_some (s j).yc) e.scav ∙ g.owned j x;
  primary_sp = ap (λ (y : ℕ → YieldCtx). (y 0).sp) (e.ycs t) ∙ g.primary_sp;
  primary_ip = ap (λ (y : ℕ → YieldCtx). (y 0).ip) (e.ycs t) ∙ g.primary_ip;
  primary_runs = λ r. ap (λ (y : ℕ → YieldCtx). has_next y 0) (e.ycs t) ∙ g.primary_runs r;
  packed = λ s p. subst IsPacked (sym (e.idx_list s)) (g.packed s p);
  flags = λ s. e.reallocatable s ∙ g.flags s;
  max = e.max ∙ g.max;
}
