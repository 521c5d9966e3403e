-- ===== src/Memory/Tables.antt =====
-- The memory of a process that runs libmsh: the static tables of libmsh/msh.c, and the variables
-- of the scavengers' shared objects that the runtime writes.
use msh.Prelude.{
  ◌≡◌, refl, ap, fun_ext, inl, inr, ==→eq, ◌==◌, Bool-cases, update_self, ℕ, suc, update, ℤ, Option,
  none, some, List,
}
use msh.Memory.Layout.{YieldCtx, YieldPtr, CoroutineCtx, PrimaryCtx}

-- `prim` and `scav` are `PRIM_TABLE` and `SCAV_TABLE`; `ints` and `argvs` hold the scavengers'
-- variables by address; `cur_crt_pos` is per thread. `strays` counts the writes to
-- `SCAV_TABLE[-1].yc`, a field of no entry, and `closed` lists the arguments of `dlclose`.
pub record World : Type 0 where
  pub prim : ℕ → PrimaryCtx
  pub scav : ℕ → CoroutineCtx
  pub ints : ℕ → ℕ
  pub argvs : ℕ → List (List ℕ)
  pub cur_crt_pos : ℕ → ℤ
  pub finished_scav_cnt : ℕ
  pub max_scav_per_thread : ℤ
  pub strays : ℕ
  pub closed : List (Option ℕ)

abbrev pub put_prim : ℕ → PrimaryCtx → World → World
put_prim t c w = record w { prim = update w.prim t c }

abbrev pub put_scav : ℕ → CoroutineCtx → World → World
put_scav i s w = record w { scav = update w.scav i s }

-- `PRIM_TABLE[t].ycs[p] = y`
abbrev pub put_yc : ℕ → ℕ → YieldCtx → World → World
put_yc t p y w = put_prim t (record (w.prim t) { ycs = update (w.prim t).ycs p y }) w

abbrev pub put_idx : ℕ → ℕ → Option ℕ → World → World
put_idx t p x w = put_prim t (record (w.prim t) { idx_list = update (w.prim t).idx_list p x }) w

abbrev pub yield_ptr : ℕ → ℕ → YieldPtr
yield_ptr t p = record { tid = t; slot = p }

-- `SCAV_TABLE[x].yc = y`, where `x` may be -1: that write hits no entry.
unfoldable pub set_scav_yc : Option ℕ → YieldPtr → World → World
set_scav_yc none y w = record w { strays = suc w.strays }
set_scav_yc (some i) y w = put_scav i (record (w.scav i) { yc = some y }) w

-- What is read of a thread's context just after it is stored.
pub prim-put_prim {ℓ} :
    {A : Type ℓ} (f : PrimaryCtx → A) (t : ℕ) (c : PrimaryCtx) (w : World)
    → f ((put_prim t c w).prim t) ≡ f c
prim-put_prim f t c w = ap f (update_self w.prim t c)

-- Storing a context that is there already.
pub put_prim_self : (t : ℕ) (w : World) → put_prim t (w.prim t) w ≡ w
put_prim_self t w = ap (λ f. record w { prim = f }) (fun_ext same)
  where
    same : (s : ℕ) → update w.prim t (w.prim t) s ≡ w.prim s
    same s = elim (Bool-cases (t == s)) [
      | inl e ↦ rw e (ap w.prim (==→eq t s e))
      | inr e ↦ rw e refl
    ]

-- The array `idx_list` of thread `t` is now `l`.
abbrev pub put_list : ℕ → (ℕ → Option ℕ) → World → World
put_list t l w = put_prim t (record (w.prim t) { idx_list = l }) w
