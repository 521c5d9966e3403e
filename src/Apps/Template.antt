-- ===== src/Apps/Template.antt =====
-- apps/src/primary/template.cpp: the primary that creates its threads and waits for them, on the
-- wrappers of libmsh/pthread.c. Its main thread has number 0.
pub mod Ends
use msh.Prelude.{
  ℕ, zero, suc, Bool, true, false, Option, none, some, List, [], ◌∷◌, ℤ, Outcome, ok, fault, ◌>>=◌,
}
use msh.Memory.{World, Loader}
use msh.Wrappers.{Environment, StartArg, create_thread, join}

-- `THREAD_NUM`
abbrev pub thread_num : ℕ
thread_num = 1

-- The two functions of pthread that the wrappers call.
pub record Pthread : Type 0 where
  pub create : StartArg → World → (ℤ × ℕ) × World
  pub join : ℕ → World → ℤ × World

-- `do_nothing`
pub do_nothing : ℕ → World → Outcome (ℕ × World)
do_nothing arg w = ok (0, w)

module _ (L : Loader) (P : Pthread) (env : Environment) (skip_cleanup : Bool) (fuel : ℕ) where
  -- The first loop, for `n` threads more: the array `t`, where an element is not set if
  -- `pthread_create` failed, and `thread_cnt`.
  pub create_all : (n count : ℕ) → World → Outcome (List (Option ℕ) × ℕ × World)
  unfolding do_nothing
  create_all zero count w = ok ([], count, w)
  create_all (suc n) count w =
      create_thread L env P.create do_nothing 0 count w >>= λ (ret, thread, count1, w1).
      create_all n count1 w1 >>= λ (ts, count2, w2). ok (thread ∷ ts, count2, w2)

  -- The second loop, over the rest of `t`. An element that is not set names no thread.
  pub join_all : List (Option ℕ) → Bool → World → Outcome (Option World)
  join_all [] first_join w = ok (some w)
  join_all (none ∷ ts) first_join w = fault
  join_all (some h ∷ ts) first_join w =
      join L skip_cleanup fuel env 0 (P.join h) first_join w
      >>= elim [ none ↦ ok none | some (ret, first_join1, w1) ↦ join_all ts first_join1 w1 ]

  -- `main`
  pub main : World → Outcome (Option (ℕ × World))
  unfolding create_all join_all
  main w = create_all thread_num 0 w >>= λ (ts, count, w1).
      join_all ts true w1 >>= λ o. ok (elim o [ none ↦ none | some w2 ↦ some (0, w2) ])
