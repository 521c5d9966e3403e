-- ===== src/Wrappers/Startup.antt =====
-- The first `pthread_create` of a process.
use mathlib.Core.Path.{subst}
use msh.Prelude.{
  ℕ, ◌+◌, ◌<◌, ◌≤◌, ◌≡◌, inl, inr, refl, sym, ap, ◌∙◌, false, ltb, Option, some, List, ℤ, pos,
  negsuc, Outcome, ok, Bool-cases, arith,
}
use msh.Memory.{max_active_crt_num, World, Loader, argc, argv, crt_pos}
use msh.Allocate.Pool.{Stops}
use msh.IdxList.{IdxList, hosted, need_more_scav}
use msh.IdxList.Push.{hosted-zero, all_finished}
use msh.IdxList.Ends.{IsPacked}
use msh.Symbols.Frame.{IsLinked}
use msh.Allocate.Donors.{DonorsPacked}
use msh.Schedule.Running.{IsReady}
use msh.Init.{strlen, path_size, msh_init}
use msh.Init.Tables.{IsUnused}
use msh.Init.Commands.{count_commands, AllLoadable, command_exists}
use msh.Init.Start.{Started, msh_init_lem}
use msh.Thread.{alloc_ctx}
use msh.Thread.Start.{alloc_ctx_lem}
use msh.Wrappers.{Environment, cap_of, StartArg, first_thread, prepare, create, create_thread}

-- Every object that can be opened has the symbols that the runtime needs.
pub record IsLinking (L : Loader) : Type 0 where
  pub has :
      (name : Option (List ℕ)) (h : ℕ)
      → L.dlopen name ≡ some h
      → ((a : ℕ) × (L.dlsym h argc ≡ some a))
        × ((a : ℕ) × (L.dlsym h argv ≡ some a))
        × ((a : ℕ) × (L.dlsym h crt_pos ≡ some a))

pub Started-IsLinked :
    (L : Loader) (lines : List (List ℕ)) (most : ℤ) (w : World)
    → IsLinking L
    → Started L lines most w
    → IsLinked L w
Started-IsLinked L lines most w l s = record {
  has = λ i h e. elim (Bool-cases (ltb i (count_commands lines))) [
    | inl in_ ↦
        let (line, at_) = command_exists lines i (ground arith) in
        let entry_ = s.entries i line at_ in l.has _ h (entry_.opened ∙ sym entry_.lib_handle ∙ e)
    | inr out ↦ absurd (ground (arith, s.rest i (ground arith)))
  ];
}

pub Started-DonorsPacked :
    {L : Loader} {lines : List (List ℕ)} {most : ℤ} {w : World}
    → Started L lines most w
    → DonorsPacked w
Started-DonorsPacked s t up p q lo lt hi e = absurd (ground (arith, s.cleared.list t q hi))

Started-hosted :
    {L : Loader} {lines : List (List ℕ)} {most : ℤ} {w : World} (t : ℕ)
    → Started L lines most w
    → hosted (w.prim t).idx_list ≡ 0
Started-hosted {w} t s =
    hosted-zero (w.prim t).idx_list
      (all_finished (w.prim t).idx_list (λ q hi. s.cleared.list t q hi))

-- How many scavengers a thread without any wants, by the value of `max_scav_per_thread`.
abbrev pub wanted : ℤ → ℕ
wanted (pos m) = m
wanted (negsuc n) = 0

need_more_scav-wanted :
    (most : ℤ) (l : IdxList) → hosted l ≡ 0 → need_more_scav most l ≡ wanted most
unfolding need_more_scav
need_more_scav-wanted (pos m) l e = rw e (ground arith)
need_more_scav-wanted (negsuc n) l e = refl

-- What the first `pthread_create` leaves.
pub record FirstCreated (L : Loader) (most : ℤ) (out : Outcome (Option ℕ × ℕ × World))
    : Type 0 where
  pub after : World
  pub result : out ≡ ok (some 1, 2, after)
  pub ready : IsReady L 0 after
  pub packed : IsPacked (after.prim 0).idx_list
  pub number : hosted (after.prim 0).idx_list ≡ (after.prim 0).scav_num
  pub stops :
      Stops
        (wanted most)
        (after.prim 0).scav_num
        0
        max_active_crt_num
        (after.prim 0).idx_list
        after.scav

pub create_step :
    (L : Loader) (env : Environment) (w w1 w2 : World)
    → env.skip_first ≡ false
    → msh_init L (cap_of env) env.pool_path env.file w ≡ ok (pos 0, w1)
    → alloc_ctx L 0 w1 ≡ ok (pos 0, w2)
    → create L env 0 w ≡ ok (some 1, 2, w2)
unfolding create prepare first_thread
create_step L env w w1 w2 skip e e' = rw (e, skip, e') refl

-- The first `pthread_create` of a process whose tables are not in use, with a path of fewer than
-- 256 characters to a pool file of at most 512 loadable commands, whose objects have the symbols, and with SKIP_FIRST_THREAD not set: it
-- goes on to start thread number 1, the calling thread is number 0 and ready to run, and it hosts
-- as many scavengers as `scav_num` says, without a hole: as many as MAX_SCAV_PER_THREAD asks for,
-- unless they are 128 or no entry of the pool can be allocated any more.
pub create_lem :
    (L : Loader) (env : Environment) (path : List ℕ) (lines : List (List ℕ)) (w : World)
    → IsUnused w
    → IsLinking L
    → env.skip_first ≡ false
    → env.pool_path ≡ some path
    → strlen path < path_size
    → env.file path ≡ some lines
    → AllLoadable L lines
    → count_commands lines ≤ max_active_crt_num
    → FirstCreated L (cap_of env) (create L env 0 w)
create_lem L env path lines w unused l skip path_set fits opens loadable room =
    let (w1, initiated, s) =
      msh_init_lem L (cap_of env) path env.file lines w unused fits opens loadable room in
    let a =
      alloc_ctx_lem L 0 w1 (omega arith) s.hosting (Started-IsLinked L lines (cap_of env) w1 l s)
        (Started-DonorsPacked s) (s.flags 0) in
    record {
      after = a.after;
      result =
          create_step L env w w1 a.after skip
            (ap (λ p. msh_init L (cap_of env) p env.file w) path_set ∙ initiated) a.result;
      ready = a.ready;
      packed = a.packed 0 (λ p q lo lt hi e. absurd (ground (arith, s.cleared.list 0 q hi)));
      number =
          a.number ∙ ap (λ n. n + (a.after.prim 0).scav_num) (Started-hosted 0 s) ∙ omega arith;
      stops =
          subst
            (λ n.
              Stops n (a.after.prim 0).scav_num 0 max_active_crt_num (a.after.prim 0).idx_list
                a.after.scav)
            (need_more_scav-wanted w1.max_scav_per_thread (w1.prim 0).idx_list (Started-hosted 0 s)
              ∙ ap wanted s.max)
            a.stops;
    }

-- The rest of `pthread_create` once there is a number for the new thread.
pub create_thread_step :
    (L : Loader) (env : Environment) (original : StartArg → World → (ℤ × ℕ) × World)
    (routine : ℕ → World → Outcome (ℕ × World)) (arg count tid count1 : ℕ) (w w1 : World)
    → create L env count w ≡ ok (some tid, count1, w1)
    → create_thread L env original routine arg count w ≡ (
        let made = original (record { start_routine = routine; arg = arg; thread_id = tid }) w1 in
        ok (made.0.0, some made.0.1, count1, made.1))
unfolding create_thread
create_thread_step L env original routine arg count tid count1 w w1 e = rw e refl
