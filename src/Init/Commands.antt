-- ===== src/Init/Commands.antt =====
-- The commands of a pool file: how many lines are commands, which line a command is, and what it
-- asks of an entry of the table.
use msh.Prelude.{
  ℕ, ◌+◌, ◌-◌, ◌<◌, ◌≡◌, inl, inr, refl, ap, ◌∙◌, true, false, ◌==◌, ==→eq, if◌then◌else◌, Option,
  none, some, List, [], ◌∷◌, Bool-cases, arith,
}
use msh.Memory.{CoroutineCtx, Loader, entry, init}
use msh.Init.{cut_line, count_words, program, is_comment}

-- How many lines are commands, and the command with number `k`.
unfoldable pub count_commands : List (List ℕ) → ℕ
count_commands [] = 0
count_commands (line ∷ lines) = (if is_comment line then 0 else 1) + count_commands lines

unfoldable pub command_at : List (List ℕ) → ℕ → Option (List ℕ)
command_at [] k = none
command_at (line ∷ lines) k = elim (is_comment line) [
  | true ↦ command_at lines k
  | false ↦ elim (k == 0) [ true ↦ some line | false ↦ command_at lines (k - 1) ]
]

abbrev pub words_of : Loader → List ℕ → List (List ℕ)
words_of L line = L.wordexp (cut_line line)

-- A command whose object can be opened and has an entry.
pub record IsLoadable (L : Loader) (line : List ℕ) : Type 0 where
  pub handle : ℕ
  pub opens : L.dlopen (program (words_of L line)) ≡ some handle
  pub start : ℕ
  pub has_entry : L.dlsym handle entry ≡ some start

-- The entry of the table that a command asks for.
pub record IsEntry (L : Loader) (line : List ℕ) (s : CoroutineCtx) : Type 0 where
  pub handle : ℕ
  pub lib_handle : s.lib_handle ≡ some handle
  pub opened : L.dlopen (program (words_of L line)) ≡ some handle
  pub entry : L.dlsym handle entry ≡ some s.entry
  pub init : L.dlsym handle init ≡ s.init
  pub argv : s.argv ≡ words_of L line
  pub argc : s.argc ≡ count_words (words_of L line)
  pub stack : (k : ℕ) → s.stack k ≡ 0
  pub free : s.yc ≡ none
  pub unfinished : s.finished ≡ false
  pub not_inited : s.inited ≡ false

-- Every command among the lines is loadable.
abbrev pub AllLoadable : Loader → List (List ℕ) → Type 0
AllLoadable L lines = (k : ℕ) (line : List ℕ) → command_at lines k ≡ some line → IsLoadable L line

pub command_skip :
    (line : List ℕ) (lines : List (List ℕ)) (k : ℕ)
    → is_comment line ≡ true
    → command_at (line ∷ lines) k ≡ command_at lines k
unfolding command_at
command_skip line lines k e = rw (command_at, e) refl

pub command_first :
    (line : List ℕ) (lines : List (List ℕ))
    → is_comment line ≡ false
    → command_at (line ∷ lines) 0 ≡ some line
unfolding command_at
command_first line lines e = rw (command_at, e) refl

pub command_later :
    (line : List ℕ) (lines : List (List ℕ)) (k : ℕ)
    → is_comment line ≡ false
    → (k == 0) ≡ false
    → command_at (line ∷ lines) k ≡ command_at lines (k - 1)
unfolding command_at
command_later line lines k e later = rw (command_at, e, later) refl

pub command_suc :
    (line : List ℕ) (lines : List (List ℕ)) (k : ℕ)
    → is_comment line ≡ false
    → command_at (line ∷ lines) (k + 1) ≡ command_at lines k
command_suc line lines k e =
    command_later line lines (k + 1) e (ground arith) ∙ ap (command_at lines) (omega arith)

pub some-inj : {l m : List ℕ} → some l ≡ some m → l ≡ m
some-inj e = cc

pub count_comment :
    (line : List ℕ) (lines : List (List ℕ))
    → is_comment line ≡ true
    → count_commands (line ∷ lines) ≡ count_commands lines
unfolding count_commands
count_comment line lines e = rw e (omega arith)

pub count_command :
    (line : List ℕ) (lines : List (List ℕ))
    → is_comment line ≡ false
    → count_commands (line ∷ lines) ≡ 1 + count_commands lines
unfolding count_commands
count_command line lines e = rw e (omega arith)

-- Each number below the number of commands is that of a command.
pub command_exists :
    (lines : List (List ℕ)) (k : ℕ)
    → k < count_commands lines
    → (line : List ℕ) × (command_at lines k ≡ some line)
unfolding count_commands
command_exists [] k h = absurd (omega arith)
command_exists (line ∷ lines) k h = elim (Bool-cases (is_comment line)) [
  | inl comment ↦
      let (l, e) = command_exists lines k (omega (arith, count_comment line lines comment)) in
      (l, command_skip line lines k comment ∙ e)
  | inr command ↦ elim (Bool-cases (k == 0)) [
    | inl first ↦
        (line, ap (command_at (line ∷ lines)) (==→eq k 0 first) ∙ command_first line lines command)
    | inr later ↦
        let (l, e) =
          command_exists lines (k - 1) (ground (arith, count_command line lines command)) in
        (l, command_later line lines k command later ∙ e)
  ]
]
