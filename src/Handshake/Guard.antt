-- ===== src/Handshake/Guard.antt =====
-- The invariant of the flags, and each access to one.
use msh.Prelude.{ℕ, ◌≡◌, inl, inr, Bool, true, false, ◌==◌, Bool-cases, arith}
use msh.Handshake.{Place, running, exposed, taking, Machine, try_claim, give_back, raise, try_exit}

abbrev pub own_flag : ℕ → ℕ
own_flag t = t

-- Whether a thread takes from thread `k`.
unfoldable pub takes : ℕ → Place → Bool
takes k running = false
takes k exposed = false
takes k (taking j) = k == j

unfoldable pub is_exposed : Place → Bool
is_exposed running = false
is_exposed exposed = true
is_exposed (taking j) = false

-- A flag that is up is that of a blocked thread from which nobody takes; a thread that is taken from
-- is blocked, with its flag down, and by one other; and a blocked thread whose flag is down is taken
-- from.
pub record IsExclusive (m : Machine) : Type 0 where
  pub up : (k : ℕ) → m.flag k ≡ true → is_exposed (m.place k) ≡ true
  pub free : (k r : ℕ) → m.flag k ≡ true → takes k (m.place r) ≡ false
  pub blocked : (k r : ℕ) → takes k (m.place r) ≡ true → is_exposed (m.place k) ≡ true
  pub alone : (k r s : ℕ) → takes k (m.place r) ≡ true → takes k (m.place s) ≡ true → r ≡ s
  pub kept :
      (k : ℕ)
      → is_exposed (m.place k) ≡ true
      → m.flag k ≡ false
      → (r : ℕ) × (takes k (m.place r) ≡ true)

pub raise-IsExclusive :
    (t : ℕ) (m : Machine) → IsExclusive m → m.place t ≡ running → IsExclusive (raise own_flag t m)
unfolding raise takes is_exposed
raise-IsExclusive t m e at_ = record {
  up = λ k h. ground (arith, e.up k);
  free = λ k r h. ground (arith, e.free k r, e.blocked t r);
  blocked = λ k r h. ground (arith, e.blocked k r);
  alone = λ k r s h h'. ground (arith, e.alone k r s);
  kept = λ k h h'. let (r, took) = e.kept k (ground arith) (ground arith) in (r, ground arith);
}

-- The loop of `msh_exit_blockable_call` goes on.
pub exit_waits :
    (t : ℕ) (m : Machine)
    → IsExclusive m
    → m.place t ≡ exposed
    → m.flag t ≡ false
    → IsExclusive (try_exit own_flag t m)
unfolding try_exit takes is_exposed
exit_waits t m e at_ down = record {
  up = λ k h. ground (arith, e.up k);
  free = λ k r h. ground (arith, e.free k r);
  blocked = λ k r h. ground (arith, e.blocked k r);
  alone = λ k r s h h'. ground (arith, e.alone k r s);
  kept = λ k h h'. let (r, took) = e.kept k (ground arith) (ground arith) in (r, ground arith);
}

pub exit_wins :
    (t : ℕ) (m : Machine)
    → IsExclusive m
    → m.place t ≡ exposed
    → m.flag t ≡ true
    → IsExclusive (try_exit own_flag t m)
unfolding try_exit takes is_exposed
exit_wins t m e at_ up = record {
  up = λ k h. ground (arith, e.up k);
  free = λ k r h. ground (arith, e.free k r);
  blocked = λ k r h. ground (arith, e.blocked k r, e.free t r up);
  alone = λ k r s h h'. ground (arith, e.alone k r s);
  kept = λ k h h'. let (r, took) = e.kept k (ground arith) (ground arith) in (r, ground arith);
}

pub claim_fails :
    (r k : ℕ) (m : Machine)
    → IsExclusive m
    → m.place r ≡ running
    → m.flag k ≡ false
    → IsExclusive (try_claim r k m)
unfolding try_claim takes is_exposed
claim_fails r k m e at_ down = record {
  up = λ j h. ground (arith, e.up j);
  free = λ j s h. ground (arith, e.free j s);
  blocked = λ j s h. ground (arith, e.blocked j s);
  alone = λ j s u h h'. ground (arith, e.alone j s u);
  kept = λ j h h'. let (s, took) = e.kept j (ground arith) (ground arith) in (s, ground arith);
}

pub claim_wins :
    (r k : ℕ) (m : Machine)
    → IsExclusive m
    → m.place r ≡ running
    → m.flag k ≡ true
    → IsExclusive (try_claim r k m)
unfolding try_claim takes is_exposed
claim_wins r k m e at_ up = record {
  up = λ j h. ground (arith, e.up j);
  free = λ j s h. ground (arith, e.free j s);
  blocked = λ j s h. ground (arith, e.blocked j s, e.up k up);
  alone = λ j s u h h'. ground (arith, e.alone j s u, e.free k s up, e.free k u up);
  kept = λ j h h'. elim (Bool-cases (k == j)) [
    | inl here ↦ (r, ground arith)
    | inr off ↦ let (s, took) = e.kept j (ground arith) (ground arith) in (s, ground arith)
  ];
}

pub give_back-IsExclusive :
    (r k : ℕ) (m : Machine) → IsExclusive m → m.place r ≡ taking k → IsExclusive (give_back r k m)
unfolding give_back takes is_exposed
give_back-IsExclusive r k m e at_ = record {
  up = λ j h. ground (arith, e.up j, e.blocked k r);
  free = λ j s h. ground (arith, e.free j s, e.alone k r s);
  blocked = λ j s h. ground (arith, e.blocked j s);
  alone = λ j s u h h'. ground (arith, e.alone j s u);
  kept = λ j h h'. let (s, took) = e.kept j (ground arith) (ground arith) in (s, ground arith);
}
