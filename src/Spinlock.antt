-- ===== src/Spinlock.antt =====
-- src/utils/spinlock.h: a lock that is one word, 0 while it is free.
use arax_g_rpc.Prelude.{ℕ, Option, none, some, not, ◌==◌, if◌then◌else◌}
use arax_g_rpc.Prelude.Outcome.{Outcome, ok, ◌>>◌, arax_assert}

unfoldable pub init : ℕ
init = 0

-- One round of the loop of `utils_spinlock_lock`, with its compare-and-swap of 0 and 1: the lock taken,
-- or none where the loop goes on.
unfoldable pub try_lock : ℕ → Option ℕ
try_lock lock = if lock == 0 then some 1 else none

-- `__sync_fetch_and_and(lock, 0)`, after the assertion that the lock is held.
unfoldable pub unlock : ℕ → Outcome ℕ
unlock lock = do arax_assert (not (lock == 0)); ok 0
