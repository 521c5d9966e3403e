-- ===== src/Init/Pool.antt =====
-- The pool of scavengers against the file that it comes from.
use mathlib.Core.Path.{subst}
use msh.Prelude.{
  sym, ℕ, ◌+◌, ◌<◌, ◌≤◌, ◌≡◌, inl, inr, refl, ap, ◌∙◌, false, ltb, List, [], ◌∷◌, ok, fault,
  Bool-cases, arith,
}
use msh.Memory.{max_active_crt_num, World, put_scav, Loader}
use msh.Init.{is_comment, load_at, load_lines}
use msh.Init.Commands.{
  count_commands, command_at, AllLoadable, command_skip, command_first, command_suc, count_comment,
  count_command,
}
use msh.Init.Filling.{
  load_entry_lem, Filled, load_at_room, lines_skip, lines_take, Filled-comment, Filled-command,
}

-- If every command can be loaded and the table has room for them, the loop returns. Each command
-- fills the next entry, in the order of the file, and no other entry changes.
pub load_lines_lem :
    (L : Loader) (lines : List (List ℕ)) (count : ℕ) (w : World)
    → AllLoadable L lines
    → count + count_commands lines ≤ max_active_crt_num
    → Filled L lines count w (load_lines L lines count w)
unfolding load_lines count_commands command_at
load_lines_lem L [] count w h room = record {
  after = w;
  result = ap (λ k. ok (k, w)) (omega arith);
  entries = λ k line e. cc;
  below = λ i lo. refl;
  above = λ i hi. refl;
  unhosted = λ u. u;
  prim = refl;
  max = refl;
}
load_lines_lem L (line ∷ lines) count w h room = elim (Bool-cases (is_comment line)) [
  | inl comment ↦
      subst (Filled L (line ∷ lines) count w) (sym (lines_skip L line lines count w comment)) (
        Filled-comment comment (
          load_lines_lem L lines count w (λ k l x. h k l (command_skip line lines k comment ∙ x))
            (omega (arith, count_comment line lines comment))))
  | inr command ↦
      let (s, loaded, here) =
        load_entry_lem L line (w.scav count) (h 0 line (command_first line lines command)) in
      let room_here : count < max_active_crt_num =
        omega (arith, count_command line lines command) in
      subst (Filled L (line ∷ lines) count w)
        (sym (
          lines_take L line lines count w (put_scav count s w) command room_here
            (load_at_room L count line w s room_here loaded)))
        (Filled-command command here (
          load_lines_lem L lines (count + 1) (put_scav count s w)
            (λ k l x. h (k + 1) l (command_suc line lines k command ∙ x))
            (omega (arith, count_command line lines command))))
]

-- A command at number 512 is written past the end of the table, whatever it is: a pool with more
-- than 512 loadable commands ends neither in a full table nor in the error for too many scavengers.
pub load_lines_overflow :
    (L : Loader) (lines : List (List ℕ)) (count : ℕ) (w : World)
    → AllLoadable L lines
    → count ≤ max_active_crt_num
    → max_active_crt_num < count + count_commands lines
    → load_lines L lines count w ≡ fault
unfolding load_lines load_at count_commands
load_lines_overflow L [] count w h at_most more = absurd (omega arith)
load_lines_overflow L (line ∷ lines) count w h at_most more = elim (Bool-cases (is_comment line)) [
  | inl comment ↦
      lines_skip L line lines count w comment
      ∙ load_lines_overflow L lines count w (λ k l x. h k l (command_skip line lines k comment ∙ x))
          at_most (omega (arith, count_comment line lines comment))
  | inr command ↦ elim (Bool-cases (ltb count max_active_crt_num)) [
    | inl inside ↦
        let (s, loaded, here) =
          load_entry_lem L line (w.scav count) (h 0 line (command_first line lines command)) in
        lines_take L line lines count w (put_scav count s w) command (ground arith)
          (load_at_room L count line w s (ground arith) loaded)
        ∙ load_lines_overflow L lines (count + 1) (put_scav count s w)
            (λ k l x. h (k + 1) l (command_suc line lines k command ∙ x)) (ground arith)
            (omega (arith, count_command line lines command))
    | inr full ↦
        let accepted : ltb max_active_crt_num count ≡ false = ground arith in
        rw (load_lines, command, accepted, load_at, full) refl
  ]
]
