-- ===== src/Wrappers/First.antt =====
-- libmsh/pthread.c: the first thread of a process, and what it leaves to the others.
use msh.Prelude.{
  none, false, ◌==◌, ℕ, ◌<◌, ◌≤◌, ◌≡◌, inl, inr, ap, ◌∙◌, sym, false, ltb, some, List, ℤ, pos, ok,
  Bool-cases, arith,
}
use msh.Memory.{max_thread_num, max_crt_per_thread, PrimaryCtx, max_active_crt_num, World, Loader}
use msh.Symbols.Offsets.{IsApart}
use msh.Allocate.Offsets.{IsSettled}
use msh.Cleanup.Drain.{cleanup_fuel}
use msh.Cleanup.Done.{Drained}
use msh.Init.{strlen, path_size, program, msh_init}
use msh.Init.Tables.{IsUnused}
use msh.Init.Commands.{count_commands, command_at, words_of, AllLoadable, command_exists}
use msh.Init.Start.{Started, msh_init_lem}
use msh.Hosting.{idx_at}
use msh.Symbols.Frame.{IsLinked-handle}
use msh.Allocate.Idle.{AllDown}
use msh.Thread.{alloc_ctx}
use msh.Thread.Idle.{alloc_ctx-StaysIdle}
use msh.Thread.Frame.{alloc_ctx_prim}
use msh.Thread.Start.{alloc_ctx_lem}
use msh.Thread.Offsets.{alloc_ctx-SymbolsSet}
use msh.Wrappers.{Environment, cap_of, create, clean}
use msh.Wrappers.Startup.{IsLinking, Started-IsLinked, create_step}
use msh.Wrappers.Ending.{IsCleanable, clean_lem}

-- What a thread has after `msh_alloc_ctx` while no thread is in a blockable call.
pub begun :
    (L : Loader) (t : ℕ) (w : World)
    → IsApart L
    → t < max_thread_num
    → IsSettled L t w
    → ((s : ℕ) → (w.prim s).reallocatable ≡ false)
    → (w1 : World) × (alloc_ctx L t w ≡ ok (pos 0, w1)) × IsCleanable L t w1
begun L t w apart inside s idle =
    let a =
      alloc_ctx_lem L t w inside s.hosting s.linked (λ r up. absurd (ground (arith, idle r)))
        (idle t) in
    (
      a.after,
      a.result,
      record {
        hosting = a.ready.hosting;
        linked = a.ready.linked;
        symbols = alloc_ctx-SymbolsSet L t (pos 0) w a.after apart s idle a.result;
      },
    )

-- No two commands name the same object.
abbrev pub AllDistinct : Loader → List (List ℕ) → Type 0
AllDistinct L lines =
    (k l : ℕ) (line line' : List ℕ) (h : ℕ)
    → command_at lines k ≡ some line
    → command_at lines l ≡ some line'
    → L.dlopen (program (words_of L line)) ≡ some h
    → L.dlopen (program (words_of L line')) ≡ some h
    → k ≡ l

Started-entry :
    (L : Loader) (lines : List (List ℕ)) (most : ℤ) (w : World) (i h : ℕ)
    → Started L lines most w
    → (w.scav i).lib_handle ≡ some h
    → (line : List ℕ) × (command_at lines i ≡ some line)
      × (L.dlopen (program (words_of L line)) ≡ some h)
Started-entry L lines most w i h s e = elim (Bool-cases (ltb i (count_commands lines))) [
  | inl in_ ↦
      let (line, at_) = command_exists lines i (ground arith) in
      let entry_ = s.entries i line at_ in (line, at_, entry_.opened ∙ sym entry_.lib_handle ∙ e)
  | inr out ↦ absurd (ground (arith, s.rest i (ground arith)))
]

Started-IsSettled :
    (L : Loader) (lines : List (List ℕ)) (most : ℤ) (w : World) (t : ℕ)
    → IsLinking L
    → AllDistinct L lines
    → Started L lines most w
    → IsSettled L t w
Started-IsSettled L lines most w t l distinct s = record {
  hosting = s.hosting;
  linked = Started-IsLinked L lines most w l s;
  separate = λ i j h e e'.
      let (line, at_, opens) = Started-entry L lines most w i h s e in
      let (line', at', opens') = Started-entry L lines most w j h s e' in
      distinct i j line line' h at_ at' opens opens';
  symbols = λ p i g x lo hi at_ loaded here. absurd (ground (arith, s.cleared.list t p hi));
}

-- The first thread of a process, from the start to the end of its cleanup.
pub record FirstThread (L : Loader) (env : Environment) (lines : List (List ℕ)) (w : World)
    : Type 0 where
  pub at_init : World
  pub at_create : World
  pub at_clean : World
  pub started : Started L lines (cap_of env) at_init
  pub given : alloc_ctx L 0 at_init ≡ ok (pos 0, at_create)
  pub created : create L env 0 w ≡ ok (some 1, 2, at_create)
  pub cleaned : clean L false cleanup_fuel 0 at_create ≡ ok (some at_clean)
  pub drained : Drained 0 at_create at_clean

pub first_thread_lem :
    (L : Loader) (env : Environment) (path : List ℕ) (lines : List (List ℕ)) (w : World)
    → IsUnused w
    → IsLinking L
    → IsApart L
    → env.skip_first ≡ false
    → env.pool_path ≡ some path
    → strlen path < path_size
    → env.file path ≡ some lines
    → AllLoadable L lines
    → AllDistinct L lines
    → count_commands lines ≤ max_active_crt_num
    → FirstThread L env lines w
first_thread_lem L env path lines w unused l apart skip path_set fits opens loadable distinct room =
    let (w0, initiated, s) =
      msh_init_lem L (cap_of env) path env.file lines w unused fits opens loadable room in
    let (w1, given, cleanable) =
      begun L 0 w0 apart (omega arith) (Started-IsSettled L lines (cap_of env) w0 0 l distinct s)
        s.flags in
    let (w', ran, drained) = clean_lem L 0 w1 cleanable in
    record {
      at_init = w0;
      at_create = w1;
      at_clean = w';
      started = s;
      given = given;
      created =
          create_step L env w w0 w1 skip
            (ap (λ p. msh_init L (cap_of env) p env.file w) path_set ∙ initiated) given;
      cleaned = ran;
      drained = drained;
    }

-- What it leaves to the next thread, which hosts nothing yet.
pub handed_on :
    (L : Loader) (env : Environment) (lines : List (List ℕ)) (w : World) (t : ℕ)
    → IsLinking L
    → AllDistinct L lines
    → (0 == t) ≡ false
    → (f : FirstThread L env lines w) → IsSettled L t f.at_clean × AllDown f.at_clean
handed_on L env lines w t l distinct off f =
    let s = Started-IsSettled L lines (cap_of env) f.at_init t l distinct f.started in
    let idle = alloc_ctx-StaysIdle L 0 (pos 0) f.at_init f.at_create f.given f.started.flags in
    let handle : (j : ℕ) → (f.at_clean.scav j).lib_handle ≡ (f.at_init.scav j).lib_handle =
      (λ j. f.drained.handle j ∙ idle.handle j) in
    let free : (p : ℕ) → p ≤ max_crt_per_thread → idx_at f.at_clean t p ≡ none = (λ p hi.
      f.drained.others t p off
      ∙ ap (λ (c : PrimaryCtx). c.idx_list p)
          (alloc_ctx_prim L 0 t off (pos 0) f.at_init f.at_create (f.started.flags t) f.given)
      ∙ f.started.cleared.list t p hi) in
    (
      record {
        hosting = f.drained.hosting;
        linked = IsLinked-handle s.linked handle;
        separate = λ i j h e e'. s.separate i j h (sym (handle i) ∙ e) (sym (handle j) ∙ e');
        symbols = λ p i g x lo hi at_ loaded here. absurd (ground (arith, free p hi));
      },
      λ r. f.drained.quiet.flags r ∙ idle.down r,
    )
