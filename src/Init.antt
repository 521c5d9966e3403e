-- ===== src/Init.antt =====
-- libmsh/msh.c: `msh_init`, which clears the tables and fills the pool of scavengers from a file.
-- The environment and the file are arguments: the value of MSH_SCAV_POOL_PATH, and the lines as
-- `fgets` gives them. A line is the list of its characters.
pub mod Tables
pub mod Commands
pub mod Filling
pub mod Pool
pub mod Start
use msh.Prelude.{
  ℕ, zero, suc, ◌+◌, ltb, ◌==◌, if◌then◌else◌, Bool, true, false, update, for_each, Option, none,
  some, List, [], ◌∷◌, ℤ, pos, minus_one, Outcome, ok, exit, fault, ◌>>=◌,
}
use msh.Memory.{
  max_crt_per_thread, max_thread_num, max_active_crt_num, YieldCtx, PrimaryCtx, CoroutineCtx, World,
  put_scav, Loader, entry, init,
}
use msh.Symbols.{require}

-- The body of the loop of `init_prim_table`.
pub reset_prim : PrimaryCtx → PrimaryCtx
reset_prim c = record c {
  ycs = for_each (max_crt_per_thread + 1) 0 (λ j yc. record yc { normal_next = minus_one }) c.ycs;
  idx_list = for_each (max_crt_per_thread + 1) 0 (λ j x. none) c.idx_list;
  reallocatable = false;
  reallocated = false;
  scav_num = 0;
}

-- `init_prim_table`
pub init_prim_table : World → World
unfolding reset_prim
init_prim_table w = record w { prim = for_each max_thread_num 0 (λ t c. reset_prim c) w.prim }

-- `cmd[strcspn(cmd, "\n")] = 0`
unfoldable pub cut_line : List ℕ → List ℕ
cut_line [] = []
cut_line (c ∷ cs) = let rest = cut_line cs in if c == 10 then [] else c ∷ rest

-- `strlen`
unfoldable pub strlen : List ℕ → ℕ
strlen [] = 0
strlen (c ∷ cs) = suc (strlen cs)

-- `sizeof scav_pool_path`
abbrev pub path_size : ℕ
path_size = 256

-- `argc` of a word list
unfoldable pub count_words : List (List ℕ) → ℕ
count_words [] = 0
count_words (word ∷ words) = suc (count_words words)

-- `argv[0]`, a null pointer where there is no word
unfoldable pub program : List (List ℕ) → Option (List ℕ)
program [] = none
program (word ∷ words) = some word

-- `line_buf[0] == '#'`
unfoldable pub is_comment : List ℕ → Bool
is_comment [] = false
is_comment (c ∷ cs) = c == 35

-- The loop of `init_scav_table` that empties the pool.
pub clear_pool : World → World
clear_pool w = record w {
  scav = for_each max_active_crt_num 0 (λ i s. record s { lib_handle = none }) w.scav;
}

module _ (L : Loader) where
  -- `init_scav_table_entry`, with `parse_command`
  pub load_entry : List ℕ → CoroutineCtx → Outcome CoroutineCtx
  unfolding cut_line count_words program
  load_entry line s =
      let words = L.wordexp (cut_line line) in
      elim (L.dlopen (program words)) [
        | none ↦ exit
        | some h ↦ require L h entry >>= λ e. ok (record s {
          lib_handle = some h;
          entry = e;
          stack = λ k. 0;
          argc = count_words words;
          argv = words;
          yc = none;
          finished = false;
          init = L.dlsym h init;
          inited = false;
        })
      ]

  -- The call for the entry at `count`; an entry past the table is a write outside it.
  pub load_at : ℕ → List ℕ → World → Outcome World
  unfolding load_entry
  load_at count line w =
      if ltb count max_active_crt_num
      then (load_entry line (w.scav count) >>= λ s. ok (put_scav count s w))
      else fault

  -- The loop of `init_scav_table` over the lines that are left: how many entries there are then.
  pub load_lines : List (List ℕ) → ℕ → World → Outcome (ℕ × World)
  unfolding is_comment load_at
  load_lines [] count w = ok (count, w)
  load_lines (line ∷ lines) count w = elim (is_comment line) [
    | true ↦ load_lines lines count w
    | false ↦ elim (ltb max_active_crt_num count) [
      | true ↦ exit
      | false ↦ load_at count line w >>= λ w1. load_lines lines (count + 1) w1
    ]
  ]

  -- `init_scav_table`: `none` for a file that cannot be opened
  pub init_scav_table : Option (List (List ℕ)) → World → Outcome World
  unfolding clear_pool load_lines
  init_scav_table none w = exit
  init_scav_table (some lines) w = load_lines lines 0 (clear_pool w) >>= λ (count, w1). ok w1

  -- `msh_init(max_scav)`, with the value of the environment variable and what its file gives. A path
  -- that `scav_pool_path` has no room for, with its 0, is written past the end of it.
  pub msh_init :
      ℤ → Option (List ℕ) → (List ℕ → Option (List (List ℕ))) → World → Outcome (ℤ × World)
  unfolding init_prim_table init_scav_table strlen
  msh_init max_scav path file w =
      let w1 = init_prim_table (record w { max_scav_per_thread = max_scav }) in
      elim path [
        | none ↦ ok (minus_one, w1)
        | some p ↦
            if ltb (strlen p) path_size
            then (init_scav_table (file p) w1 >>= λ w2. ok (pos 0, w2))
            else fault
      ]
