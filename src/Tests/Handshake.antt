-- ===== src/Tests/Handshake.antt =====
-- Threads that contend for a flag: thread 1 is blocked, and thread 0 takes from it.
use msh.Prelude.{ℕ, ◌≡◌, ◌⊎◌, refl, true, false, arith}
use msh.Handshake.{
  Machine, running, exposed, taking, raise, try_exit, try_claim, give_back, spin, Reachable, begin,
  next, raises, claims,
}
use msh.Handshake.Exclusion.{taken_alone, flag_or_taker, shared_flag_stuck}
use msh.Handshake.Guard.{own_flag}

abbrev idle : Machine
idle = record { flag = λ k. false; place = λ t. running }

abbrev blocked : Machine
blocked = raise own_flag 1 idle

abbrev taken : Machine
taken = try_claim 0 1 blocked

blocked-Reachable : Reachable own_flag blocked
blocked-Reachable = next (begin idle (λ k. refl) (λ t. refl)) (raises 1 refl)

taken-Reachable : Reachable own_flag taken
unfolding raise
taken-Reachable = next blocked-Reachable (claims 0 1 refl (omega arith))

taken_alone_example : (taken.place 1 ≡ exposed) × ((s : ℕ) → taken.place s ≡ taking 1 → 0 ≡ s)
unfolding raise try_claim
taken_alone_example = taken_alone taken 0 1 taken-Reachable refl

flag_or_taker_example :
    ((try_exit own_flag 1 taken).place 1 ≡ running)
    ⊎ ((r : ℕ) × (taken.place r ≡ taking 1) × ((give_back r 1 taken).flag 1 ≡ true))
unfolding raise try_claim
flag_or_taker_example = flag_or_taker taken 1 taken-Reachable refl

-- All threads share the flag behind the table.
abbrev dummy : ℕ → ℕ
dummy t = 128

shared_flag_stuck_example :
    ((try_exit dummy 4 (raise dummy 5 (raise dummy 4 idle))).place 4 ≡ running)
    × ((spin dummy 1000 5 (try_exit dummy 4 (raise dummy 5 (raise dummy 4 idle)))).place 5
        ≡ exposed)
shared_flag_stuck_example = shared_flag_stuck dummy 4 5 1000 idle refl refl
