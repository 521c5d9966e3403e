-- ===== src/Tests/Process.antt =====
-- A process of one command whose first thread starts, and takes a return from its scavenger.
use msh.Prelude.{
  ℕ, ◌≡◌, ◌≢◌, refl, Bool, true, false, ◌==◌, if◌then◌else◌, none, some, List, [], ◌∷◌, pos,
  Outcome, ok, exit, fault, first_pos, last_pos, count_pos, for_each, arith,
}
use msh.Memory.{World}
use msh.IdxList.{push_back, need_more_scav}
use msh.NextMap.{set_special_next, update_next_map, next_available_crt}
use msh.Hosting.{idx_at, IsHosting}
use msh.Symbols.Frame.{IsLinked}
use msh.Wrappers.Startup.{Started-IsLinked}
use msh.Symbols.{set_scav_symbol}
use msh.Finish.{finish_crt}
use msh.Pack.{pack_crts}
use msh.Allocate.{allocate_scav}
use msh.Schedule.{Switch, sched_next_crt}
use msh.Thread.{alloc_ctx}
use msh.Thread.Start.{Entered, alloc_ctx_lem}
use msh.Init.{is_comment, cut_line, count_words, program}
use mathlib.Core.Path.{subst}
use msh.Init.Tables.{IsCleared, IsCleared-IsHosting}
use msh.Runtime.{System, go, working, phase_after, at_start, Reach, here, later, starts, returns}
use msh.Runtime.Consistent.{IsConsistent, donors}
use msh.Runtime.Safety.{reachable-IsConsistent, finished_never_hosted}
use msh.Runtime.Resume.{GoesOn, return_resumes}
use msh.Runtime.Ending.{cleanup_ends}
use msh.Cleanup.Turns.{Ended}
use msh.Runtime.Isolation.{actor, Untouched, Step-Untouched}
use msh.Init.Commands.{IsEntry, command_at, count_commands}
use msh.Init.Start.{Started}
use msh.Symbols.Offsets.{SymbolsSet}
use msh.Tests.Startup.{name_size, opener, new_world, opener-IsLinking}
use msh.Tests.Fixture.{symbol_offset}

abbrev one_line : List (List ℕ)
one_line = (97 ∷ []) ∷ []

abbrev pub started : World
started = record new_world {
  prim = λ t. record (new_world.prim t) { reallocatable = false };
  scav = λ i. record (new_world.scav i) {
    lib_handle = if i == 0 then some 1 else none;
    argv = (97 ∷ []) ∷ [];
    argc = 1;
    init = some 9;
    entry = 8;
  };
}

abbrev world_after {ℓ} : {A : Type ℓ} → Outcome (A × World) → World
world_after (ok (r, w)) = w
world_after exit = started
world_after fault = started

is_ok {ℓ} : {A : Type ℓ} → Outcome A → Bool
is_ok (ok a) = true
is_ok exit = false
is_ok fault = false

-- A call that has ended well, by its parts.
ended :
    {A : Type 0} (o : Outcome (A × World)) → is_ok o ≡ true → (a : A) × (o ≡ ok (a, world_after o))
unfolding is_ok
ended (ok (a, w)) e = (a, refl)
ended exit e = cc
ended fault e = cc

pub first : World
unfolding alloc_ctx allocate_scav set_scav_symbol push_back need_more_scav set_special_next for_each
    first_pos count_pos symbol_offset
first = world_after (alloc_ctx opener 0 started)

second : World
unfolding first sched_next_crt finish_crt update_next_map next_available_crt pack_crts last_pos
second = world_after (sched_next_crt opener 0 20 first)

first_hosts : idx_at first 0 1 ≡ some 0
unfolding first
first_hosts = refl

second_finished : (second.scav 0).finished ≡ true
unfolding second
second_finished = refl

pub first_allocates : alloc_ctx opener 0 started ≡ ok (pos 0, first)
unfolding first
first_allocates = refl

first_goes_on : is_ok (sched_next_crt opener 0 20 first) ≡ true
unfolding is_ok second
first_goes_on = refl

first_returns : (s : Switch) × (sched_next_crt opener 0 20 first ≡ ok (s, second))
unfolding second
first_returns = ended (sched_next_crt opener 0 20 first) first_goes_on

started-IsCleared : IsCleared started
started-IsCleared = record { list = λ t p hi. refl; runs = λ t p hi. refl; unhosted = λ i. refl }

one-IsEntry : IsEntry opener (97 ∷ []) (started.scav 0)
unfolding cut_line count_words program symbol_offset name_size
one-IsEntry = record {
  handle = 1;
  lib_handle = refl;
  opened = refl;
  entry = refl;
  init = refl;
  argv = refl;
  argc = refl;
  stack = λ k. refl;
  free = refl;
  unfinished = refl;
  not_inited = refl;
}

only_command :
    (k : ℕ) (line : List ℕ) → command_at one_line k ≡ some line → (0 ≡ k) × ((97 ∷ []) ≡ line)
unfolding command_at is_comment
only_command k line e = ground arith

started-Started : Started opener one_line (pos 4) started
unfolding count_commands is_comment
started-Started = record {
  hosting = IsCleared-IsHosting started-IsCleared;
  cleared = started-IsCleared;
  flags = λ t. refl;
  entries = λ k line e.
      let (at_, is) = only_command k line e in
      subst (λ i. IsEntry opener line (started.scav i)) at_
        (subst (λ l. IsEntry opener l (started.scav 0)) is one-IsEntry);
  rest = λ i lo. ground arith;
  max = refl;
}

pub started-IsHosting : IsHosting started
started-IsHosting = IsCleared-IsHosting started-IsCleared

pub started-IsLinked : IsLinked opener started
started-IsLinked = Started-IsLinked opener one_line (pos 4) started opener-IsLinking started-Started

-- The first thread has started.
abbrev running : System
running = go 0 working first (at_start started)

-- Its scavenger has returned.
abbrev emptied : System
emptied = go 0 (phase_after 0 second) second running

running-Reach : Reach opener (at_start started) running
running-Reach = later here (starts 0 first refl first_allocates)

emptied-Reach : Reach opener (at_start started) emptied
emptied-Reach = let (s, e) = first_returns in later running-Reach (returns 0 20 s second refl e)

pub running-IsConsistent : IsConsistent opener running
running-IsConsistent =
    reachable-IsConsistent opener one_line (pos 4) started running opener-IsLinking started-Started
      running-Reach

-- A second thread starts beside it.
second_starts : Entered opener 1 first (alloc_ctx opener 1 first)
second_starts =
    alloc_ctx_lem opener 1 first (omega arith) running-IsConsistent.hosting
      running-IsConsistent.linked (donors running-IsConsistent) (running-IsConsistent.flag 1)

Step-Untouched_example : Untouched 0 running (go 1 working second_starts.after running)
unfolding actor
Step-Untouched_example =
    Step-Untouched opener one_line (pos 4) started running
      (go 1 working second_starts.after running) opener-IsLinking started-Started running-Reach
      (starts 1 second_starts.after refl second_starts.result) 0 refl refl

return_resumes_example : GoesOn opener 0 1 0 first
return_resumes_example =
    return_resumes opener one_line (pos 4) started running opener-IsLinking started-Started
      running-Reach 0 1 0 refl (omega arith) (omega arith) first_hosts

cleanup_ends_example : Ended opener 0 first
cleanup_ends_example =
    cleanup_ends opener one_line (pos 4) started running opener-IsLinking started-Started
      running-Reach 0

pub first-SymbolsSet : SymbolsSet opener 0 first
unfolding first symbol_offset
first-SymbolsSet p i g x lo hi e e' e'' = ground arith

reachable-IsConsistent_example : IsConsistent opener emptied
reachable-IsConsistent_example =
    reachable-IsConsistent opener one_line (pos 4) started emptied opener-IsLinking started-Started
      emptied-Reach

finished_never_hosted_example : idx_at emptied.world 0 1 ≢ some 0
finished_never_hosted_example =
    finished_never_hosted opener one_line (pos 4) started emptied emptied opener-IsLinking
      started-Started emptied-Reach here 0 0 1 second_finished (omega arith) (omega arith)
