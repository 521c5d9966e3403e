-- ===== src/Init/Filling.antt =====
-- What one line of the pool file does to the table.
use mathlib.Core.Path.{subst}
use msh.Prelude.{
  sym, ℕ, ◌+◌, ◌-◌, ◌<◌, ◌≤◌, ◌≡◌, inl, inr, refl, ap, ◌∙◌, true, false, ◌==◌, ==→eq, ltb,
  update_self, update_ne, none, some, List, ◌∷◌, Outcome, ok, Bool-cases, arith,
}
use msh.Memory.{max_active_crt_num, CoroutineCtx, World, put_scav, Loader, entry, init}
use msh.Symbols.Frame.{require_found}
use msh.Init.{count_words, is_comment, load_entry, load_at, load_lines}
use msh.Init.Commands.{
  count_commands, command_at, words_of, IsLoadable, IsEntry, command_skip, command_first,
  command_later, some-inj, count_comment, count_command,
}

pub load_entry_lem :
    (L : Loader) (line : List ℕ) (s : CoroutineCtx)
    → IsLoadable L line
    → (s' : CoroutineCtx) × (load_entry L line s ≡ ok s') × IsEntry L line s'
unfolding load_entry
load_entry_lem L line s h = (
  record s {
    lib_handle = some h.handle;
    entry = h.start;
    stack = λ k. 0;
    argc = count_words (words_of L line);
    argv = words_of L line;
    yc = none;
    finished = false;
    init = L.dlsym h.handle init;
    inited = false;
  },
  rw (load_entry, h.opens, require_found L h.handle h.start entry h.has_entry) refl,
  record {
    handle = h.handle;
    lib_handle = refl;
    opened = h.opens;
    entry = h.has_entry;
    init = refl;
    argv = refl;
    argc = refl;
    stack = λ k. refl;
    free = refl;
    unfinished = refl;
    not_inited = refl;
  },
)

-- What the loop over the lines leaves when `count` entries are there already.
pub record Filled (L : Loader) (lines : List (List ℕ)) (count : ℕ) (w : World)
    (out : Outcome (ℕ × World)) : Type 0 where
  pub after : World
  pub result : out ≡ ok (count + count_commands lines, after)
  pub entries :
      (k : ℕ) (line : List ℕ)
      → command_at lines k ≡ some line
      → IsEntry L line (after.scav (count + k))
  pub below : (i : ℕ) → i < count → after.scav i ≡ w.scav i
  pub above : (i : ℕ) → count + count_commands lines ≤ i → after.scav i ≡ w.scav i
  pub unhosted : ((i : ℕ) → (w.scav i).yc ≡ none) → (i : ℕ) → (after.scav i).yc ≡ none
  pub prim : after.prim ≡ w.prim
  pub max : after.max_scav_per_thread ≡ w.max_scav_per_thread

module _ (L : Loader) where
  pub load_at_room :
      (count : ℕ) (line : List ℕ) (w : World) (s : CoroutineCtx)
      → count < max_active_crt_num
      → load_entry L line (w.scav count) ≡ ok s
      → load_at L count line w ≡ ok (put_scav count s w)
  unfolding load_at
  load_at_room count line w s h e =
      let inside : ltb count max_active_crt_num ≡ true = ground arith in rw (inside, e) refl

  pub lines_skip :
      (line : List ℕ) (lines : List (List ℕ)) (count : ℕ) (w : World)
      → is_comment line ≡ true
      → load_lines L (line ∷ lines) count w ≡ load_lines L lines count w
  unfolding load_lines
  lines_skip line lines count w e = rw (load_lines, e) refl

  pub lines_take :
      (line : List ℕ) (lines : List (List ℕ)) (count : ℕ) (w w1 : World)
      → is_comment line ≡ false
      → count < max_active_crt_num
      → load_at L count line w ≡ ok w1
      → load_lines L (line ∷ lines) count w ≡ load_lines L lines (count + 1) w1
  unfolding load_lines
  lines_take line lines count w w1 e h loaded =
      let room : ltb max_active_crt_num count ≡ false = ground arith in
      rw (load_lines, e, room, loaded) refl

module _ {L : Loader} {line : List ℕ} {lines : List (List ℕ)} {count : ℕ} {w : World} where
  pub Filled-comment :
      {out : Outcome (ℕ × World)}
      → is_comment line ≡ true
      → Filled L lines count w out
      → Filled L (line ∷ lines) count w out
  Filled-comment e f = record {
    after = f.after;
    result = f.result ∙ ap (λ n. ok (count + n, f.after)) (sym (count_comment line lines e));
    entries = λ k l x. f.entries k l (sym (command_skip line lines k e) ∙ x);
    below = f.below;
    above = λ i hi. f.above i (omega (arith, count_comment line lines e));
    unhosted = f.unhosted;
    prim = f.prim;
    max = f.max;
  }

  pub Filled-command :
      {s : CoroutineCtx} {out : Outcome (ℕ × World)}
      → is_comment line ≡ false
      → IsEntry L line s
      → Filled L lines (count + 1) (put_scav count s w) out
      → Filled L (line ∷ lines) count w out
  Filled-command {s} e here f = record {
    after = f.after;
    result = f.result ∙ ap (λ n. ok (n, f.after)) (omega (arith, count_command line lines e));
    entries = λ k l x. elim (Bool-cases (k == 0)) [
      | inl first ↦
          subst (λ i. IsEntry L l (f.after.scav i)) (omega (arith, ==→eq k 0 first))
            (first_entry l (same l k first x))
      | inr later ↦
          subst (λ i. IsEntry L l (f.after.scav i)) (ground arith)
            (f.entries (k - 1) l (sym (command_later line lines k e later) ∙ x))
    ];
    below = λ i lo. f.below i (omega arith) ∙ update_ne w.scav s (omega arith);
    above = λ i hi.
        f.above i (omega (arith, count_command line lines e))
        ∙ update_ne w.scav s (omega (arith, count_command line lines e));
    unhosted = λ u. f.unhosted (λ i. ground (arith, u i, here.free));
    prim = f.prim;
    max = f.max;
  }
    where
      same :
          (l : List ℕ) (k : ℕ) → (k == 0) ≡ true → command_at (line ∷ lines) k ≡ some l → line ≡ l
      same l k first x = some-inj (
          sym (command_first line lines e)
          ∙ ap (command_at (line ∷ lines)) (sym (==→eq k 0 first))
          ∙ x)

      first_entry : (l : List ℕ) → line ≡ l → IsEntry L l (f.after.scav count)
      first_entry l x =
          subst (λ m. IsEntry L m (f.after.scav count)) x
            (subst (IsEntry L line) (sym (f.below count (omega arith) ∙ update_self w.scav count s))
              here)
