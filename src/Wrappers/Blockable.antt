-- ===== src/Wrappers/Blockable.antt =====
-- A wrapped call that may block.
use msh.Prelude.{false, ℕ, ◌≡◌, ap, Option, some, ℤ, Outcome, ok, ◌>>=◌}
use msh.Memory.{World, Loader}
use msh.IdxList.Ends.{IsPacked}
use msh.Schedule.Running.{IsReady}
use msh.Thread.{enter_blockable_call}
use msh.Thread.Blocking.{IsBlocked, enter_blockable_call_lem, exit_blockable_call_lem}
use msh.Wrappers.{blockable}

pub record Wrapped (L : Loader) (t : ℕ) (ret : ℤ) (out : Outcome (ℤ × Option World)) : Type 0 where
  pub after : World
  pub result : out ≡ ok (ret, some after)
  pub ready : IsReady L t after
  pub settled : (after.prim t).reallocated ≡ false

-- A ready thread with a packed list calls a blocking function through its wrapper. If the function,
-- with what the other threads do meanwhile, leaves the thread as a blocked thread is, then the
-- wrapper returns what the function has returned, and the thread is ready again.
pub blockable_lem :
    (L : Loader) (t : ℕ) (original : World → ℤ × World) (w : World)
    → IsReady L t w
    → IsPacked (w.prim t).idx_list
    → ((v : World) → IsBlocked L t v → IsBlocked L t ((original v).1))
    → Wrapped L t ((original (enter_blockable_call t w)).0) (blockable L t original w)
unfolding blockable
blockable_lem L t original w ready packed kept =
    let r =
      exit_blockable_call_lem L t ((original (enter_blockable_call t w)).1)
        (kept (enter_blockable_call t w) (enter_blockable_call_lem L t w ready packed)) in
    record {
      after = r.after;
      result = ap (λ m. m >>= λ x. ok ((original (enter_blockable_call t w)).0, x)) r.result;
      ready = r.ready;
      settled = r.settled;
    }
