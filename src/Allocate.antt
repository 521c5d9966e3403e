-- ===== src/Allocate.antt =====
-- libmsh/msh.c: `_allocate_scav`, `call_init_for_new_scav` and `allocate_scav`, which give the
-- calling thread `t` scavengers of blocked threads first, and of the pool then. The spin lock that
-- `allocate_scav` holds round `_allocate_scav` is Spinlock's.
pub mod Donors
pub mod Attach
pub mod Pool
pub mod Inits
pub mod Offsets
pub mod Whole
pub mod Kept
pub mod Idle
pub mod Frame
pub mod Plain
pub mod Primary
use msh.Prelude.{
  ℕ, zero, suc, ◌+◌, ◌*◌, ◌==◌, leb, if◌then◌else◌, Bool, true, false, not, ◌&&◌, ◌||◌, is_some,
  update, Option, none, some, ℤ, pos, to_short, Outcome, ok, ◌>>=◌,
}
use msh.Memory.{
  max_crt_per_thread, max_thread_num, max_active_crt_num, sizeof_yield_ctx, sizeof_coroutine_ctx,
  offset_ret_to_sched, YieldCtx, CoroutineCtx, PrimaryCtx, World, put_prim, put_scav, put_yc,
  put_list, yield_ptr, Loader,
}
use msh.IdxList.{IdxList, push_back, need_more_scav}
use msh.NextMap.{set_special_next}
use msh.Hosting.{idx_at}
use msh.Symbols.{set_scav_symbol}
use msh.Realloc.{realloc_scav}

-- `PRIM_TABLE[s].reallocatable = b`
abbrev pub set_flag : ℕ → Bool → World → World
set_flag s b w = put_prim s (record (w.prim s) { reallocatable = b }) w

-- An entry of the pool that is loaded, and neither allocated nor finished.
abbrev pub available : CoroutineCtx → Bool
available s = is_some s.lib_handle && not (is_some s.yc || s.finished)

-- `(uint64_t) &SCAV_TABLE[i].ret_to_sched`
abbrev pub initial_sp : Loader → ℕ → ℕ
initial_sp L i = L.scav_base + i * sizeof_coroutine_ctx + offset_ret_to_sched

module _ (L : Loader) (t : ℕ) where
  -- The allocation of entry `i` of the pool, by the outcome of the push: `none` if there is no
  -- room.
  pub attach_pushed : ℕ → World → IdxList × Option ℕ → Outcome (Option World)
  attach_pushed i w (m, none) = ok none
  attach_pushed i w (m, some p) =
      let w1 = put_list t m w in
      let w2 =
        put_yc t p
          (record ((w1.prim t).ycs p) {
            sp = initial_sp L i;
            ip = (w1.scav i).entry;
            normal_next = pos 0;
          })
          w1 in
      set_scav_symbol L t i p w2 >>= λ w3.
      ok (some (put_scav i (record (w3.scav i) { yc = some (yield_ptr t p) }) w3))

module _ (L : Loader) (t demands : ℕ) where
  -- The first loop of `_allocate_scav`, over the threads from `s`: whether the function has
  -- returned, and with how many.
  pub from_threads : ℕ → ℕ → ℕ → World → Outcome (Bool × ℕ × World)
  from_threads zero s ret w = ok (false, ret, w)
  from_threads (suc n) s ret w = elim (w.prim s).reallocatable [
    | false ↦ from_threads n (s + 1) ret w
    | true ↦ realloc_scav L s t demands 0 (set_flag s false w) >>= λ (cnt, w1).
        elim (leb demands (ret + cnt)) [
          | true ↦ ok (true, ret + cnt, set_flag s true w1)
          | false ↦ from_threads n (s + 1) (ret + cnt) (set_flag s true w1)
        ]
  ]

  -- The second loop, over the entries from `i`.
  pub from_pool : ℕ → ℕ → ℕ → World → Outcome (ℕ × World)
  unfolding attach_pushed
  from_pool zero i ret w = ok (ret, w)
  from_pool (suc n) i ret w = elim (available (w.scav i)) [
    | false ↦ from_pool n (i + 1) ret w
    | true ↦
        attach_pushed L t i w (push_back (w.prim t).idx_list (max_crt_per_thread + 1) i) >>= elim [
          | none ↦ ok (ret, w)
          | some w1 ↦ elim (leb demands (ret + 1)) [
            | true ↦ ok (ret + 1, w1)
            | false ↦ from_pool n (i + 1) (ret + 1) w1
          ]
        ]
  ]

  -- `_allocate_scav`
  pub allocate_demanded : World → Outcome (ℕ × World)
  unfolding from_threads from_pool
  allocate_demanded w = from_threads max_thread_num 0 0 w >>= λ (done, ret, w1). elim done [
    | true ↦ ok (ret, w1)
    | false ↦ from_pool max_active_crt_num 0 ret w1
  ]

-- The call of `init` at position `p`, on a context that yields to itself.
abbrev pub self_linked : ℕ → YieldCtx → YieldCtx
self_linked p yc = record yc {
  normal_next = to_short (p * sizeof_yield_ctx);
  special_next = to_short (p * sizeof_yield_ctx);
}

module _ (L : Loader) (t : ℕ) where
  -- The body of the loop of `call_init_for_new_scav`.
  pub init_at : ℕ → World → World
  init_at p w = elim (idx_at w t p) [
    | none ↦ w
    | some i ↦ if (w.scav i).inited then w else elim (w.scav i).init [
      | none ↦ w
      | some f ↦
          let yc = (w.prim t).ycs p in
          let w1 = put_yc t p (self_linked p yc) w in
          let w2 = put_yc t p (L.run_init f ((w1.prim t).ycs p)) w1 in
          let w3 = put_scav i (record (w2.scav i) { inited = true }) w2 in
          put_yc t p
            (record ((w3.prim t).ycs p) {
              sp = yc.sp;
              ip = yc.ip;
              normal_next = yc.normal_next;
              special_next = yc.special_next;
            })
            w3
    ]
  ]

  pub init_from : ℕ → ℕ → World → World
  unfolding init_at
  init_from zero p w = w
  init_from (suc n) p w = init_from n (p + 1) (init_at p w)

  -- `call_init_for_new_scav`
  pub call_init_for_new_scav : World → World
  unfolding init_from
  call_init_for_new_scav w = init_from max_crt_per_thread 1 w

  -- `allocate_scav`
  unfoldable pub allocate_scav : World → Outcome (ℕ × World)
  unfolding allocate_demanded call_init_for_new_scav
  allocate_scav w =
      let counts = need_more_scav w.max_scav_per_thread (w.prim t).idx_list in
      if counts == 0
      then ok (0, w)
      else allocate_demanded L t counts w >>= λ (ret, w1).
          let w2 = call_init_for_new_scav w1 in
          ok (ret, put_prim t (set_special_next (w2.prim t)) w2)
