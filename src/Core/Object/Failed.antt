-- ===== src/Core/Object/Failed.antt =====
-- A registration that the allocator refuses (src/core/arax_object.c, `arax_object_register`).
use arax_g_rpc.Prelude.{ℕ, ◌-◌, ◌≡◌, ◌<◌, ◌≤◌, List, arith}
use arax_g_rpc.Prelude.Outcome.{ok}
use arax_g_rpc.Core.World.{Body, World, Platform, ◌>>=◌}
use arax_g_rpc.Core.Object.{register}

-- When the budget covers an object that the allocator then refuses, registration returns NULL and the
-- bytes stay taken from the budget, although no object holds them.
pub register-null :
    (env : Platform) (name : List ℕ) (size ref_count : ℕ) (body : Body) (w : World)
    → env.allocate w.cells size ≡ 0
    → 0 < size
    → size ≤ w.throttle.available
    → w.throttle.available ≤ w.throttle.capacity
    → register env name size ref_count body w
      ≡ ok
          (0, record w { throttle = record w.throttle { available = w.throttle.available - size } })
unfolding register ◌>>=◌
register-null env name size ref_count body w refused pos fits bounded = ground (arith, refused)
