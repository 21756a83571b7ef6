-- ===== src/Spin/Semaphore.antt =====
-- `async_semaphore_s` of src/async/spin/async.c.
use arax_g_rpc.Prelude.{ℕ, ◌+◌, ◌-◌, ◌%◌, ◌^◌, ◌&&◌, ltb, ◌==◌, if◌then◌else◌}
use arax_g_rpc.Prelude.Outcome.{Outcome, ok, blocked}

unfoldable pub init : ℕ
init = 0

unfoldable pub inc : ℕ → ℕ
inc value = (value + 1) % 2 ^ 64

-- The word is read as an `int`, which has to be positive and the whole of the word.
unfoldable pub dec : ℕ → Outcome ℕ
dec value =
    let read = value % 2 ^ 32 in
    if ltb 0 read && ltb read (2 ^ 31) && (read == value) then ok (value - 1) else blocked
