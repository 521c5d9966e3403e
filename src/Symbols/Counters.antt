-- ===== src/Symbols/Counters.antt =====
-- The loop counters of a position, which instrumented code reaches by the offset that
-- `set_scav_symbol` gives it.
use msh.Prelude.{
  ℕ, ◌+◌, ◌*◌, ◌<◌, ◌≤◌, ◌≡◌, false, ◌==◌, some, pos, to_short, to_short_small, arith,
}
use msh.Memory.{
  max_crt_per_thread, num_of_lines_for_loop_counter, sizeof_yield_ctx, offset_loop_counter,
  offset_regs, World, Loader, loop_counter_loc,
}
use msh.Symbols.{set_loop_counter}

-- The bytes of the loop counters of one position.
abbrev pub counter_bytes : ℕ
counter_bytes = num_of_lines_for_loop_counter * 64

-- What `set_loop_counter` does for position `p` of thread `t`.
pub record Counting (L : Loader) (h t p a : ℕ) (w w' : World) : Type 0 where
  pub zeroed : (k : ℕ) → (w'.prim t).loop_counter p k ≡ 0
  pub others : (q : ℕ) → (p == q) ≡ false → (w'.prim t).loop_counter q ≡ (w.prim t).loop_counter q
  pub behind_ycs : (q : ℕ) → q ≤ max_crt_per_thread → (q + 1) * sizeof_yield_ctx ≤ w'.ints a
  pub before_regs : w'.ints a + counter_bytes ≤ offset_regs
  pub apart :
      (q k l : ℕ)
      → k < counter_bytes
      → l < counter_bytes
      → w'.ints a + k ≡ offset_loop_counter + q * counter_bytes + l
      → (p ≡ q) × (k ≡ l)
  pub link : to_short (p * sizeof_yield_ctx) ≡ pos (p * sizeof_yield_ctx)

-- For a position of the array and an object with a `loop_counter_loc`: the counters of the position
-- are cleared and those of the other positions are not; the offset that the object is given is that
-- of an area of 256 bytes behind the yield contexts and before the registers, which overlaps no
-- other position's; and the offset of the position's yield context fits a `short`.
pub set_loop_counter_lem :
    (L : Loader) (h t p a : ℕ) (w : World)
    → L.dlsym h loop_counter_loc ≡ some a
    → p ≤ max_crt_per_thread
    → Counting L h t p a w (set_loop_counter L h t p w)
unfolding set_loop_counter
set_loop_counter_lem L h t p a w has hi = record {
  zeroed = λ k. ground (arith, has);
  others = λ q off. ground (arith, has);
  behind_ycs = λ q hi'. omega (arith, at_);
  before_regs = omega (arith, at_);
  apart = λ q k l less less' e. (omega (arith, at_), omega (arith, at_));
  link = to_short_small (p * sizeof_yield_ctx) (omega arith);
}
  where
    at_ :
        (set_loop_counter L h t p w).ints a
        ≡ offset_loop_counter + num_of_lines_for_loop_counter * 64 * p
    at_ = ground (arith, has)
