-- ===== src/Spinlock/Exclusion.antt =====
-- The lock's byte and the threads behind it.
use mathlib.Core.Path.{subst}
use msh.Prelude.{
  sym, ap, ◌∙◌, ℕ, ◌≡◌, ◌⊎◌, inl, inr, refl, Bool, true, false, ◌==◌, if◌then◌else◌, update,
  Bool-cases, arith,
}
use msh.Spinlock.{
  Place, outside, swapping, waiting, inside, Machine, busy, swap_lock, watch_lock, spin_trylock,
  spin_unlock, Step, calls, swaps, watches, tries, unlocks, start, Reachable, begin, next,
}

-- Whether a place is behind the lock.
pub is_inside : Place → Bool
is_inside outside = false
is_inside swapping = false
is_inside waiting = false
is_inside inside = true

-- The byte is 0 and nobody is inside, or it is 1 and exactly one thread is.
pub record IsGuarded (m : Machine) : Type 0 where
  pub free : m.lock ≡ 0 → (t : ℕ) → is_inside (m.place t) ≡ false
  pub held : (m.lock ≡ 0) ⊎ ((m.lock ≡ busy) × ((t : ℕ) × (is_inside (m.place t) ≡ true)))
  pub alone : (s t : ℕ) → is_inside (m.place s) ≡ true → is_inside (m.place t) ≡ true → s ≡ t

start-IsGuarded : IsGuarded start
unfolding is_inside
start-IsGuarded = record { free = λ e t. refl; held = inl refl; alone = λ s t e. cc }

-- The machine in which `t` is at `p` and the byte is `l`.
abbrev moved : ℕ → Place → ℕ → Machine → Machine
moved t p l m = record { lock = l; place = update m.place t p }

-- A thread that is not inside moves to a place that is not, and the byte keeps its value.
stay_out :
    (t l : ℕ) (p : Place) (m : Machine)
    → IsGuarded m
    → is_inside (m.place t) ≡ false
    → is_inside p ≡ false
    → l ≡ m.lock
    → IsGuarded (moved t p l m)
stay_out t l p m g was is same = record {
  free = λ e s. ground (arith, g.free (sym same ∙ e) s);
  held = still g.held;
  alone = λ r s e e'. g.alone r s (ground arith) (ground arith);
}
  where
    still :
        (m.lock ≡ 0) ⊎ ((m.lock ≡ busy) × ((s : ℕ) × (is_inside (m.place s) ≡ true)))
        → (l ≡ 0) ⊎ ((l ≡ busy) × ((s : ℕ) × (is_inside (update m.place t p s) ≡ true)))
    still (inl e) = inl (same ∙ e)
    still (inr (e, (s, i))) = inr (same ∙ e, (s, ground arith))

-- A thread enters over a free lock.
enter : (t : ℕ) (m : Machine) → IsGuarded m → m.lock ≡ 0 → IsGuarded (moved t inside busy m)
unfolding is_inside
enter t m g e = record {
  free = λ x s. absurd (omega arith);
  held = inr (refl, (t, ground arith));
  alone = λ r s x y. ground (arith, g.free e r, g.free e s);
}

-- The thread that is inside leaves.
go_out : (t : ℕ) (m : Machine) → IsGuarded m → m.place t ≡ inside → IsGuarded (moved t outside 0 m)
unfolding is_inside
go_out t m g at_ = record {
  free = λ x s. elim (Bool-cases (t == s)) [
    | inl e ↦ ground arith
    | inr e ↦ elim (Bool-cases (is_inside (m.place s))) [
      | inl i ↦ absurd (ground (arith, g.alone t s (ap is_inside at_) i))
      | inr i ↦ ground arith
    ]
  ];
  held = inl refl;
  alone = λ r s x y. elim (Bool-cases (t == r)) [
    | inl e ↦ absurd (ground arith)
    | inr e ↦ elim (Bool-cases (t == s)) [
      | inl e' ↦ absurd (ground arith)
      | inr e' ↦ g.alone r s (ground arith) (ground arith)
    ]
  ];
}

-- An exchange, whose thread goes to `p` if it was not the first.
exchange :
    (t : ℕ) (p : Place) (m : Machine)
    → IsGuarded m
    → is_inside (m.place t) ≡ false
    → is_inside p ≡ false
    → IsGuarded (moved t (if m.lock == 0 then inside else p) busy m)
exchange t p m g was is = elim g.held [
  | inl e ↦
      subst (λ q. IsGuarded (moved t q busy m)) (sym (ap (λ l. if l == 0 then inside else p) e))
        (enter t m g e)
  | inr (e, i) ↦
      subst (λ q. IsGuarded (moved t q busy m)) (sym (ap (λ l. if l == 0 then inside else p) e))
        (stay_out t busy p m g was is (sym e))
]

watched : (l : ℕ) → is_inside (if l == 0 then swapping else waiting) ≡ false
unfolding is_inside
watched l = ground arith

Step-IsGuarded : {m m' : Machine} → Step m m' → IsGuarded m → IsGuarded m'
unfolding is_inside swap_lock watch_lock spin_trylock spin_unlock
Step-IsGuarded {m} (calls t at_) g = stay_out t m.lock swapping m g (ap is_inside at_) refl refl
Step-IsGuarded {m} (swaps t at_) g = exchange t waiting m g (ap is_inside at_) refl
Step-IsGuarded {m} (watches t at_) g =
    stay_out t m.lock (if m.lock == 0 then swapping else waiting) m g (ap is_inside at_)
      (watched m.lock) refl
Step-IsGuarded {m} (tries t at_) g = exchange t outside m g (ap is_inside at_) refl
Step-IsGuarded {m} (unlocks t at_) g = go_out t m g at_

Reachable-IsGuarded : {m : Machine} → Reachable m → IsGuarded m
Reachable-IsGuarded begin = start-IsGuarded
Reachable-IsGuarded (next m m' r s) = Step-IsGuarded s (Reachable-IsGuarded r)

-- However any number of threads lock, try and unlock, no two of them are behind the lock at once.
pub mutual_exclusion :
    (m : Machine) (s t : ℕ) → Reachable m → m.place s ≡ inside → m.place t ≡ inside → s ≡ t
unfolding is_inside
mutual_exclusion m s t r at_s at_t =
    (Reachable-IsGuarded r).alone s t (ap is_inside at_s) (ap is_inside at_t)
