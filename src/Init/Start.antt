-- ===== src/Init/Start.antt =====
-- `msh_init` as a whole.
use msh.Prelude.{
  ℕ, ◌<◌, ◌≤◌, ◌≡◌, refl, ap, ◌∙◌, true, false, Option, none, some, List, ℤ, pos, Outcome, ok,
  for_each_in, for_each_ge, ltb, inl, inr, Bool-cases, arith,
}
use msh.Memory.{max_active_crt_num, CoroutineCtx, World, Loader}
use msh.Hosting.{IsHosting}
use msh.NextMap.{has_next}
use mathlib.Core.Path.{subst}
use msh.Init.{clear_pool, init_prim_table, init_scav_table, strlen, path_size, msh_init}
use msh.Init.Tables.{
  IsUnused, IsCleared, IsCleared-IsHosting, init_prim_table-IsCleared, init_scav, cleared_flag,
}
use msh.Init.Commands.{count_commands, command_at, AllLoadable, IsEntry}
use msh.Init.Pool.{load_lines_lem}
use msh.Init.Filling.{Filled}

-- The process after a successful `msh_init` from a file of these lines.
pub record Started (L : Loader) (lines : List (List ℕ)) (most : ℤ) (w : World) : Type 0 where
  pub hosting : IsHosting w
  pub cleared : IsCleared w
  pub flags : (t : ℕ) → (w.prim t).reallocatable ≡ false
  pub entries : (k : ℕ) (line : List ℕ) → command_at lines k ≡ some line → IsEntry L line (w.scav k)
  pub rest : (i : ℕ) → count_commands lines ≤ i → (w.scav i).lib_handle ≡ none
  pub max : w.max_scav_per_thread ≡ most

clear_pool_entry :
    (w : World) (i : ℕ)
    → (max_active_crt_num ≤ i → (w.scav i).lib_handle ≡ none)
    → ((clear_pool w).scav i).lib_handle ≡ none
unfolding clear_pool
clear_pool_entry w i past = elim (Bool-cases (ltb i max_active_crt_num)) [
  | inl in_ ↦
      ap (λ (s : CoroutineCtx). s.lib_handle)
        (for_each_in max_active_crt_num 0 (λ i s. record s { lib_handle = none }) w.scav i
          (omega arith) (ground arith))
  | inr out ↦
      ap (λ (s : CoroutineCtx). s.lib_handle)
        (for_each_ge max_active_crt_num 0 (λ i s. record s { lib_handle = none }) w.scav i
          (ground arith))
      ∙ past (ground arith)
]

-- Emptying the pool changes no context.
clear_pool_yc : (w : World) (i : ℕ) → (w.scav i).yc ≡ none → ((clear_pool w).scav i).yc ≡ none
unfolding clear_pool
clear_pool_yc w i e = elim (Bool-cases (ltb i max_active_crt_num)) [
  | inl in_ ↦
      ap (λ (s : CoroutineCtx). s.yc)
        (for_each_in max_active_crt_num 0 (λ i s. record s { lib_handle = none }) w.scav i
          (omega arith) (ground arith))
      ∙ e
  | inr out ↦
      ap (λ (s : CoroutineCtx). s.yc)
        (for_each_ge max_active_crt_num 0 (λ i s. record s { lib_handle = none }) w.scav i
          (ground arith))
      ∙ e
]

clear_pool_prim : (w : World) → (clear_pool w).prim ≡ w.prim
unfolding clear_pool
clear_pool_prim w = refl

clear_pool_max : (w : World) → (clear_pool w).max_scav_per_thread ≡ w.max_scav_per_thread
unfolding clear_pool
clear_pool_max w = refl

init_max : (w : World) → (init_prim_table w).max_scav_per_thread ≡ w.max_scav_per_thread
unfolding init_prim_table
init_max w = refl

with_max : ℤ → World → World
with_max most w = init_prim_table (record w { max_scav_per_thread = most })

Filled-Started :
    (L : Loader) (lines : List (List ℕ)) (most : ℤ) (w : World) {out : Outcome (ℕ × World)}
    → IsUnused w
    → (f : Filled L lines 0 (clear_pool (with_max most w)) out) → Started L lines most f.after
unfolding with_max
Filled-Started L lines most w u f = record {
  hosting = IsCleared-IsHosting clear;
  cleared = clear;
  flags = λ t. ap (λ c. (c t).reallocatable) tables ∙ cleared_flag base t (u.no_flag t);
  entries =
      λ k line e. subst (λ i. IsEntry L line (f.after.scav i)) (omega arith) (f.entries k line e);
  rest = λ i lo.
      ap (λ (s : CoroutineCtx). s.lib_handle) (f.above i (omega arith))
      ∙ clear_pool_entry (init_prim_table base) i
          (λ past. ap (λ s. (s i).lib_handle) (init_scav base) ∙ u.no_entry i past);
  max = f.max ∙ clear_pool_max (init_prim_table base) ∙ init_max base;
}
  where
    base : World
    base = record w { max_scav_per_thread = most }

    table : IsCleared (init_prim_table base)
    table = init_prim_table-IsCleared base (record {
      unhosted = u.unhosted;
      no_entry = u.no_entry;
      no_list = u.no_list;
      no_link = u.no_link;
      no_flag = u.no_flag;
    })

    tables : f.after.prim ≡ (init_prim_table base).prim
    tables = f.prim ∙ clear_pool_prim (init_prim_table base)

    clear : IsCleared f.after
    clear = record {
      list = λ t p hi. ap (λ c. (c t).idx_list p) tables ∙ table.list t p hi;
      runs = λ t p hi. ap (λ c. has_next (c t).ycs p) tables ∙ table.runs t p hi;
      unhosted = f.unhosted (λ i. clear_pool_yc (init_prim_table base) i (table.unhosted i));
    }

-- `msh_init` on tables that are not in use, with a path of fewer than 256 characters to a file of at
-- most 512 commands that can all be loaded, returns 0. Then the tables are consistent and host nothing, no thread is blocked, entry
-- `k` of the pool is what command `k` of the file asks for, and the entries behind them are empty.
pub msh_init_lem :
    (L : Loader) (most : ℤ) (path : List ℕ) (file : List ℕ → Option (List (List ℕ)))
    (lines : List (List ℕ)) (w : World)
    → IsUnused w
    → strlen path < path_size
    → file path ≡ some lines
    → AllLoadable L lines
    → count_commands lines ≤ max_active_crt_num
    → (w' : World) × (msh_init L most (some path) file w ≡ ok (pos 0, w')) × Started L lines most w'
unfolding msh_init init_scav_table with_max
msh_init_lem L most path file lines w u fits opens loadable room =
    let f = load_lines_lem L lines 0 (clear_pool (with_max most w)) loadable (omega arith) in
    let inside : ltb (strlen path) path_size ≡ true = ground arith in
    (f.after, rw (inside, opens, f.result) refl, Filled-Started L lines most w u f)
