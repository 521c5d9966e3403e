-- ===== src/Runtime/Links.antt =====
-- The links of the scavengers, in every state that the threads come to.
use mathlib.Core.Path.{subst}
use msh.Prelude.{
  ℕ, ◌≡◌, inl, inr, refl, ap, true, false, ◌==◌, List, ℤ, pos, minus_one, ==→eq, Bool-cases, arith,
}
use msh.Memory.{World, Loader}
use msh.NextMap.Plain.{IsPlain}
use msh.Init.Start.{Started}
use msh.Schedule.Plain.{sched_next_crt-IsPlain}
use msh.Cleanup.{world_of}
use msh.Cleanup.Plain.{after_setjmp-IsPlain, msh_cleanup-IsPlain}
use msh.Thread.{enter_blockable_call}
use msh.Thread.Plain.{alloc_ctx-IsPlain, enter_blockable_call-IsPlain, exit_blockable_call-IsPlain}
use msh.Runtime.{
  Phase, working, blocked, ending, System, go, phase_after, at_start, Step, Reach, here, later,
  starts, refused, enters, spins, exits, returns, cleans, drains, rejoins,
}
use msh.Runtime.Consistent.{is_ending}

-- The scavengers of every thread that does not clean up yield to the primary.
abbrev pub IsPlainSystem : System → Type 0
IsPlainSystem S = (s : ℕ) → is_ending (S.phase s) ≡ false → IsPlain (S.world.prim s).ycs

-- A step of thread `t` to phase `p`. A thread that is not ending was not ending before.
gone-IsPlainSystem :
    (S : System) (t : ℕ) (p : Phase) (w : World)
    → IsPlainSystem S
    → ((s : ℕ)
        → (is_ending p ≡ true → (t == s) ≡ false)
        → IsPlain (S.world.prim s).ycs
        → IsPlain (w.prim s).ycs)
    → (is_ending p ≡ false → is_ending (S.phase t) ≡ false)
    → IsPlainSystem (go t p w S)
gone-IsPlainSystem S t p w plain step off s on = elim (Bool-cases (t == s)) [
  | inl here_ ↦
      step s (λ e. absurd (ground arith))
        (plain s
          (subst (λ r. is_ending (S.phase r) ≡ false) (==→eq t s here_) (off (ground arith))))
  | inr there ↦ step s (λ e. there) (plain s (ground arith))
]

Step-plain : {L : Loader} {S T : System} → Step L S T → IsPlainSystem S → IsPlainSystem T
Step-plain {L} {S} (starts t w at_ e) plain =
    gone-IsPlainSystem S t working w plain (λ s off. alloc_ctx-IsPlain L t s (pos 0) S.world w e)
      (λ d. ap is_ending at_)
Step-plain {L} {S} (refused t w at_ e) plain =
    gone-IsPlainSystem S t ending w plain (λ s off. alloc_ctx-IsPlain L t s minus_one S.world w e)
      (λ d. ap is_ending at_)
Step-plain {L} {S} (enters t at_) plain =
    gone-IsPlainSystem S t blocked (enter_blockable_call t S.world) plain
      (λ s off. enter_blockable_call-IsPlain L t s S.world) (λ d. ap is_ending at_)
Step-plain (spins t at_ e) plain = plain
Step-plain {L} {S} (exits t w at_ e) plain =
    gone-IsPlainSystem S t working w plain (λ s off. exit_blockable_call-IsPlain L t s S.world w e)
      (λ d. ap is_ending at_)
Step-plain {L} {S} (returns t ret to w at_ e) plain =
    gone-IsPlainSystem S t (phase_after t w) w plain
      (λ s off. sched_next_crt-IsPlain L t s ret S.world w to e) (λ d. ap is_ending at_)
Step-plain {L} {S} (cleans t skip c at_ e) plain =
    gone-IsPlainSystem S t ending (world_of c) plain
      (λ s off. msh_cleanup-IsPlain L t s (off refl) skip S.world c e) (λ d. ap is_ending at_)
Step-plain {L} {S} (drains t ret to w at_ e) plain =
    gone-IsPlainSystem S t ending w plain (λ s off. sched_next_crt-IsPlain L t s ret S.world w to e)
      (λ d. cc)
Step-plain {L} {S} (rejoins t c at_ e) plain =
    gone-IsPlainSystem S t ending (world_of c) plain
      (λ s off. after_setjmp-IsPlain L t s (off refl) S.world c e) (λ d. cc)

Reach-plain : {L : Loader} {S T : System} → IsPlainSystem S → Reach L S T → IsPlainSystem T
Reach-plain plain here = plain
Reach-plain plain (later r m) = Step-plain m (Reach-plain plain r)

-- Before any thread has called, nothing runs.
at_start-IsPlainSystem :
    {L : Loader} {lines : List (List ℕ)} {most : ℤ} {w : World}
    → Started L lines most w
    → IsPlainSystem (at_start w)
at_start-IsPlainSystem started s on p lo hi runs =
    absurd (ground (arith, started.cleared.runs s p hi))

pub reachable-IsPlainSystem :
    {L : Loader} {lines : List (List ℕ)} {most : ℤ} {w : World} {S : System}
    → Started L lines most w
    → Reach L (at_start w) S
    → IsPlainSystem S
reachable-IsPlainSystem started = Reach-plain (at_start-IsPlainSystem started)
