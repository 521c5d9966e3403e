-- ===== src/Hosting.antt =====
-- What the two tables of libmsh/msh.c promise one another: which primary position hosts which
-- scavenger. `SCAV_TABLE[i].yc` and `idx_list` are inverse to each other, a hosted scavenger is
-- loaded and not finished, and its yield context is the one that is not marked finished.
pub mod Steps
pub mod Gain
pub mod Keeps
use msh.Prelude.{ℕ, ◌≤◌, ◌≡◌, Bool, true, false, ◌&&◌, ◌==◌, Option, none, some, arith}
use msh.Memory.{max_crt_per_thread, YieldPtr, World, yield_ptr, PrimaryCtx, YieldCtx, CoroutineCtx}
use msh.IdxList.{occupied}
use msh.NextMap.{has_next}

-- `PRIM_TABLE[t].idx_list[p]`
abbrev pub idx_at : World → ℕ → ℕ → Option ℕ
idx_at w t p = (w.prim t).idx_list p

-- `PRIM_TABLE[t].ycs[p].normal_next != -1`
abbrev pub runs_at : World → ℕ → ℕ → Bool
runs_at w t p = has_next (w.prim t).ycs p

pub record IsHosting (w : World) : Type 0 where
  pub host :
      (t p i : ℕ)
      → 1 ≤ p
      → p ≤ max_crt_per_thread
      → idx_at w t p ≡ some i
      → (w.scav i).yc ≡ some (yield_ptr t p)
  pub back :
      (i t p : ℕ)
      → (w.scav i).yc ≡ some (yield_ptr t p)
      → (1 ≤ p) × (p ≤ max_crt_per_thread) × (idx_at w t p ≡ some i)
  pub reserved : (t : ℕ) → idx_at w t 0 ≡ none
  pub live :
      (t p : ℕ) → 1 ≤ p → p ≤ max_crt_per_thread → runs_at w t p ≡ occupied (w.prim t).idx_list p
  pub unfinished :
      (t p i : ℕ)
      → 1 ≤ p
      → p ≤ max_crt_per_thread
      → idx_at w t p ≡ some i
      → (w.scav i).finished ≡ false
  pub loaded :
      (t p i : ℕ)
      → 1 ≤ p
      → p ≤ max_crt_per_thread
      → idx_at w t p ≡ some i
      → (h : ℕ) × ((w.scav i).lib_handle ≡ some h)

-- Two positions of the process are the same.
abbrev pub same_slot : ℕ → ℕ → ℕ → ℕ → Bool
same_slot t p s q = t == s && p == q

-- In consistent tables no two positions host the same scavenger.
pub host_unique :
    {w : World} (t p s q i : ℕ)
    → IsHosting w
    → 1 ≤ p
    → p ≤ max_crt_per_thread
    → 1 ≤ q
    → q ≤ max_crt_per_thread
    → idx_at w t p ≡ some i
    → idx_at w s q ≡ some i
    → (t ≡ s) × (p ≡ q)
host_unique t p s q i h lo hi lo' hi' e e' =
    ground (arith, h.host t p i lo hi e, h.host s q i lo' hi' e')
