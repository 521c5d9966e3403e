-- ===== src/Spinlock.antt =====
-- libmsh/spinlock.h: the lock that guards the scavenger table, as steps of threads that interleave.
-- A step is one access to the lock's byte.
pub mod Exclusion
use msh.Prelude.{ℕ, ◌==◌, if◌then◌else◌, Bool, true, false, update, ◌≡◌}

-- BUSY
abbrev pub busy : ℕ
busy = 1

-- Where a thread is: not at the lock, before the exchange of `spin_lock`, in its inner loop, or
-- behind it.
pub data Place : Type 0 where
  outside swapping waiting inside : Place

-- The byte, and the place of each thread.
pub record Machine : Type 0 where
  pub lock : ℕ
  pub place : ℕ → Place

-- `xchg_8`: the value that was there, and the machine with the new one.
abbrev pub xchg_8 : ℕ → Machine → ℕ × Machine
xchg_8 x m = (m.lock, record m { lock = x })

abbrev pub go : ℕ → Place → Machine → Machine
go t p m = record m { place = update m.place t p }

-- The call of `spin_lock`.
abbrev pub call_lock : ℕ → Machine → Machine
call_lock t m = go t swapping m

-- `if (!xchg_8(lock, BUSY)) return;`
unfoldable pub swap_lock : ℕ → Machine → Machine
swap_lock t m = let (old, m1) = xchg_8 busy m in go t (if old == 0 then inside else waiting) m1

-- `while (*lock) cpu_relax();`
unfoldable pub watch_lock : ℕ → Machine → Machine
watch_lock t m = go t (if m.lock == 0 then swapping else waiting) m

-- `spin_trylock`: 0 is success.
unfoldable pub spin_trylock : ℕ → Machine → ℕ × Machine
spin_trylock t m =
    let (old, m1) = xchg_8 busy m in (old, go t (if old == 0 then inside else outside) m1)

-- `spin_unlock`
unfoldable pub spin_unlock : ℕ → Machine → Machine
spin_unlock t m = go t outside (record m { lock = 0 })

-- One step of some thread. A thread unlocks what it has locked.
pub data Step (m : Machine) : Machine → Type 0 where
  calls : (t : ℕ) → m.place t ≡ outside → Step m (call_lock t m)
  swaps : (t : ℕ) → m.place t ≡ swapping → Step m (swap_lock t m)
  watches : (t : ℕ) → m.place t ≡ waiting → Step m (watch_lock t m)
  tries : (t : ℕ) → m.place t ≡ outside → Step m ((spin_trylock t m).1)
  unlocks : (t : ℕ) → m.place t ≡ inside → Step m (spin_unlock t m)

-- The machine at the start, with SPINLOCK_INITIALIZER.
abbrev pub start : Machine
start = record { lock = 0; place = λ t. outside }

pub data Reachable : Machine → Type 0 where
  begin : Reachable start
  next : (m m' : Machine) → Reachable m → Step m m' → Reachable m'
