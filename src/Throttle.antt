-- ===== src/Throttle.antt =====
-- src/core/arax_throttle.c and arax_throttle.h: the byte budget of the segment and of an accelerator,
-- in a build with ARAX_THROTTLE_ENABLE and without ARAX_THROTTLE_DEBUG.
-- Sizes are `size_t`. The condition variable `ready` is what `blocked` and Throttle/Waiters speak of.
pub mod Tests
pub mod Laws
pub mod Waiters
use arax_g_rpc.Prelude.{ℕ, ◌+◌, ◌-◌, ◌%◌, ◌^◌, Bool, ltb, leb, ◌==◌, if◌then◌else◌}
use arax_g_rpc.Prelude.Outcome.{Outcome, ok, blocked, ◌>>=◌, ◌>>◌, arax_assert}

-- `arax_throttle_s`
pub record Throttle : Type 0 where
  pub available : ℕ
  pub capacity : ℕ

-- the values of a `size_t`
abbrev pub u64 : ℕ
u64 = 2 ^ 64

unfoldable pub init : ℕ → ℕ → Outcome Throttle
init a_sz t_sz = do
  arax_assert (ltb 0 a_sz)
  arax_assert (ltb 0 t_sz)
  arax_assert (leb a_sz t_sz)
  ok (record { available = a_sz; capacity = t_sz })

unfoldable pub size_inc : Throttle → ℕ → Outcome Throttle
size_inc thr sz = if sz == 0 then ok thr else do
  let thr' = record thr { available = (thr.available + sz) % u64 }
  arax_assert (leb thr'.available thr'.capacity)
  ok thr'

-- One round of the wait: where too little is available, the thread sleeps until a notification and
-- then makes the round again.
unfoldable pub size_dec : Throttle → ℕ → Outcome Throttle
size_dec thr sz = if sz == 0 then ok thr else if ltb thr.available sz then blocked else do
  let thr' = record thr { available = thr.available - sz }
  arax_assert (leb thr'.available thr'.capacity)
  ok thr'

unfoldable pub get_available_size : Throttle → ℕ
get_available_size thr = thr.available

unfoldable pub get_total_size : Throttle → ℕ
get_total_size thr = thr.capacity
