-- ===== src/Handshake.antt =====
-- libmsh/msh.c: the flag `reallocatable`, by which a blocked thread and a thread that takes its
-- scavengers exclude each other, as steps of threads that interleave. A step is one access to a flag.
-- `slot` says which flag a thread's `msh_reallocatable` points to: its own in PRIM_TABLE, or, for
-- all threads without a context, the flag `dummy`.
pub mod Guard
pub mod Exclusion
use msh.Prelude.{ℕ, zero, suc, ◌<◌, ◌≡◌, if◌then◌else◌, Bool, true, false, update}
use msh.Memory.{max_thread_num}

-- What a thread does: it is outside blockable calls, in one or in the loop behind it, or it is in
-- `realloc_scav` with the context of the thread that it takes from.
pub data Place : Type 0 where
  running exposed : Place
  taking : ℕ → Place

-- The flags, those of PRIM_TABLE by the number of their thread, and the place of each thread.
pub record Machine : Type 0 where
  pub flag : ℕ → Bool
  pub place : ℕ → Place

-- `CAS(flag, true, false)`: whether it succeeded, and the machine after it.
abbrev pub cas : ℕ → Machine → Bool × Machine
cas k m = (m.flag k, record m { flag = update m.flag k false })

abbrev pub move : ℕ → Place → Machine → Machine
move t p m = record m { place = update m.place t p }

-- The call of a thread in `_allocate_scav` on the context `k`.
unfoldable pub try_claim : ℕ → ℕ → Machine → Machine
try_claim r k m = let (won, m1) = cas k m in move r (if won then taking k else running) m1

-- `t->reallocatable = true`, after `realloc_scav`
unfoldable pub give_back : ℕ → ℕ → Machine → Machine
give_back r k m = move r running (record m { flag = update m.flag k true })

module _ (slot : ℕ → ℕ) where
  -- `msh_enter_blockable_call`
  unfoldable pub raise : ℕ → Machine → Machine
  raise t m = move t exposed (record m { flag = update m.flag (slot t) true })

  -- A round of the loop of `msh_exit_blockable_call`.
  unfoldable pub try_exit : ℕ → Machine → Machine
  try_exit t m = let (won, m1) = cas (slot t) m in move t (if won then running else exposed) m1

  -- The loop of `msh_exit_blockable_call` while no other thread does anything, for `n` rounds.
  unfoldable pub spin : ℕ → ℕ → Machine → Machine
  unfolding try_exit
  spin zero t m = m
  spin (suc n) t m = spin n t (try_exit t m)

  -- One step of some thread.
  pub data Step (m : Machine) : Machine → Type 0 where
    raises : (t : ℕ) → m.place t ≡ running → Step m (raise t m)
    exits : (t : ℕ) → m.place t ≡ exposed → Step m (try_exit t m)
    claims : (r k : ℕ) → m.place r ≡ running → k < max_thread_num → Step m (try_claim r k m)
    gives : (r k : ℕ) → m.place r ≡ taking k → Step m (give_back r k m)

  -- The machine at the start: the flags are cleared by `init_prim_table`.
  pub data Reachable : Machine → Type 0 where
    begin :
        (m : Machine) → ((k : ℕ) → m.flag k ≡ false) → ((t : ℕ) → m.place t ≡ running) → Reachable m
    next : {m m' : Machine} → Reachable m → Step m m' → Reachable m'
