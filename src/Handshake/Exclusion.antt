-- ===== src/Handshake/Exclusion.antt =====
-- The steps of threads that contend for flags, with a flag for each thread and with a shared one.
use msh.Prelude.{ℕ, zero, suc, ◌≡◌, ◌⊎◌, inl, inr, true, false, ◌==◌, Bool-cases, arith}
use msh.Handshake.{
  Place, running, exposed, taking, Machine, give_back, raise, try_exit, spin, Step, raises, exits,
  claims, gives, Reachable, begin, next,
}
use msh.Handshake.Guard.{
  own_flag, takes, is_exposed, IsExclusive, raise-IsExclusive, exit_waits, exit_wins, claim_fails,
  claim_wins, give_back-IsExclusive,
}

Step-IsExclusive : {m m' : Machine} → IsExclusive m → Step own_flag m m' → IsExclusive m'
Step-IsExclusive {m} e (raises t at_) = raise-IsExclusive t m e at_
Step-IsExclusive {m} e (exits t at_) = elim (Bool-cases (m.flag t)) [
  | inl up ↦ exit_wins t m e at_ up
  | inr down ↦ exit_waits t m e at_ down
]
Step-IsExclusive {m} e (claims r k at_ inside) = elim (Bool-cases (m.flag k)) [
  | inl up ↦ claim_wins r k m e at_ up
  | inr down ↦ claim_fails r k m e at_ down
]
Step-IsExclusive {m} e (gives r k at_) = give_back-IsExclusive r k m e at_

Reachable-IsExclusive : {m : Machine} → Reachable own_flag m → IsExclusive m
unfolding takes is_exposed
Reachable-IsExclusive (begin m down still) = record {
  up = λ k h. absurd (ground (arith, down k));
  free = λ k r h. absurd (ground (arith, down k));
  blocked = λ k r h. absurd (ground (arith, still r));
  alone = λ k r s h h'. absurd (ground (arith, still r));
  kept = λ k h h'. absurd (ground (arith, still k));
}
Reachable-IsExclusive (next r s) = Step-IsExclusive (Reachable-IsExclusive r) s

-- While every thread has a flag of its own, and however the threads interleave from a start with
-- every flag down and every thread running: a thread takes the
-- scavengers of another only while that is in a blockable call or in the loop behind it, so never
-- of one that runs or takes itself, and no second thread takes from it at the same time.
pub taken_alone :
    (m : Machine) (r k : ℕ)
    → Reachable own_flag m
    → m.place r ≡ taking k
    → (m.place k ≡ exposed) × ((s : ℕ) → m.place s ≡ taking k → r ≡ s)
unfolding takes is_exposed
taken_alone m r k reachable at_ =
    let e = Reachable-IsExclusive reachable in
    (ground (arith, e.blocked k r), λ s at'. e.alone k r s (ground arith) (ground arith))

takes-taking : (k : ℕ) (p : Place) → takes k p ≡ true → p ≡ taking k
unfolding takes
takes-taking k p h = ground arith

-- While every thread has a flag of its own, and from such a start, a thread in a blockable call or in
-- the loop behind it
-- has its flag up, so that its next round of the loop ends it, or some thread takes from it, whose
-- `give_back` puts the flag up.
pub flag_or_taker :
    (m : Machine) (t : ℕ)
    → Reachable own_flag m
    → m.place t ≡ exposed
    → ((try_exit own_flag t m).place t ≡ running)
      ⊎ ((r : ℕ) × (m.place r ≡ taking t) × ((give_back r t m).flag t ≡ true))
unfolding takes is_exposed try_exit give_back
flag_or_taker m t reachable at_ =
    let e = Reachable-IsExclusive reachable in
    elim (Bool-cases (m.flag t)) [
      | inl up ↦ inl (ground arith)
      | inr down ↦
          let (r, took) = e.kept t (ground arith) down in
          inr (r, takes-taking t (m.place r) took, ground arith)
    ]

record IsStuck (slot : ℕ → ℕ) (t : ℕ) (m : Machine) : Type 0 where
  waits : m.place t ≡ exposed
  down : m.flag (slot t) ≡ false

spin-IsStuck :
    (slot : ℕ → ℕ) (t n : ℕ) (m : Machine) → IsStuck slot t m → IsStuck slot t (spin slot n t m)
unfolding spin try_exit
spin-IsStuck slot t zero m stuck = stuck
spin-IsStuck slot t (suc n) m stuck =
    spin-IsStuck slot t n (try_exit slot t m) (record {
      waits = ground (arith, stuck.waits, stuck.down);
      down = ground (arith, stuck.down);
    })

-- Two threads that share a flag, as those without a context share `dummy`, and that enter blockable
-- calls one after the other: once the first has left, it runs, and the loop of the second never ends
-- while no thread does anything else.
pub shared_flag_stuck :
    (slot : ℕ → ℕ) (s t n : ℕ) (m : Machine)
    → slot s ≡ slot t
    → (s == t) ≡ false
    → let m1 = try_exit slot s (raise slot t (raise slot s m)) in
      (m1.place s ≡ running) × ((spin slot n t m1).place t ≡ exposed)
unfolding try_exit raise
shared_flag_stuck slot s t n m same off =
    let m1 = try_exit slot s (raise slot t (raise slot s m)) in
    let stuck : IsStuck slot t m1 = record { waits = ground arith; down = ground arith } in
    (ground arith, (spin-IsStuck slot t n m1 stuck).waits)
