-- ===== src/Receiver/Delivery/Loop.antt =====
-- src/smokejumper/receiver/delivery.py: the process-lifetime dispatcher.
use smokejumper.Prelude.{ℕ, zero, suc, Text}
use smokejumper.Queue.{Attempt}
use smokejumper.Receiver.Delivery.{Store, dispatch_pending}

-- Turns of the loop of `_run`. An exception is logged and the next turn tries again; the naps
-- between the turns change nothing. The n-th turn reads the clock at `now n`.
unfoldable pub run : (Text → Text) → (ℕ → Attempt) → ℕ → (ℕ → ℕ) → ℕ → Store → Store
run sha256_hex xadd limit now zero s = s
run sha256_hex xadd limit now (suc turns) s =
    run sha256_hex xadd limit (λ n. now (suc n)) turns
      (dispatch_pending sha256_hex xadd limit (now 0) s).1
