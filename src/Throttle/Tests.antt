-- ===== src/Throttle/Tests.antt =====
-- The throttle of src/core/arax_throttle.c at concrete inputs.
use arax_g_rpc.Prelude.{◌+◌, ◌≡◌, ◌<◌, ◌≤◌, refl, [], ◌∷◌, arith}
use arax_g_rpc.Throttle.{size_dec}
use arax_g_rpc.Throttle.Waiters.{Shared, Reach, here, next, take, sleep, fresh, All, no_lost_wakeup}

-- One thread holds 80 bytes of 100, and another sleeps for 50.
abbrev crowded : Shared
crowded = record {
  thr = record { available = 20; capacity = 100 };
  held = 80;
  asleep = 50 ∷ [];
  woken = [];
}

crowded-Reach : Reach (fresh 100) crowded
unfolding size_dec
crowded-Reach = next (next here (take (fresh 100) 80 refl)) (sleep _ 50 refl)

no_lost_wakeup_example : (20 + 80 ≡ 100) × All (λ sz. (20 < sz) × (sz ≤ 100 → 0 < 80)) (50 ∷ [])
no_lost_wakeup_example = no_lost_wakeup (omega arith) crowded-Reach
