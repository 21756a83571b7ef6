-- ===== src/Core/Create/Balance.antt =====
-- The `_init` functions of src/core keep the balance of the segment.
use arax_g_rpc.Prelude.{ℕ, ◌<◌, List}
use arax_g_rpc.Throttle.{u64}
use arax_g_rpc.Core.World.{Ptr, Platform}
use arax_g_rpc.Core.World.Keeps.{Keeps}
use arax_g_rpc.Core.World.Balance.{IsBalanced, balance_rules}
use arax_g_rpc.Core.Object.Balance.{Serves, register-Keeps}
use arax_g_rpc.Core.Orphans.Balance.{add_orphan_vaccel-Keeps}
use arax_g_rpc.Core.Accel.Balance.{add_vaccel-Keeps}
use arax_g_rpc.Core.Create.{vaccel_init, accel_init, proc_init, data_init_aligned}

module _ {cap : ℕ} (small : cap < u64) (env : Platform) (serves : Serves env) where
  pub vaccel_init-Keeps :
      (name : List ℕ) (type : ℕ) (a : Ptr) → Keeps (IsBalanced cap) (vaccel_init env name type a)
  unfolding vaccel_init
  vaccel_init-Keeps name type a =
      search
        (balance_rules, register-Keeps small env serves, add_orphan_vaccel-Keeps, add_vaccel-Keeps)
        depth 12

  pub accel_init-Keeps :
      (name : List ℕ) (type size capacity : ℕ)
      → Keeps (IsBalanced cap) (accel_init env name type size capacity)
  unfolding accel_init
  accel_init-Keeps name type size capacity =
      search (balance_rules, register-Keeps small env serves, vaccel_init-Keeps) depth 14

  pub proc_init-Keeps : (name : List ℕ) → Keeps (IsBalanced cap) (proc_init env name)
  unfolding proc_init
  proc_init-Keeps name = register-Keeps small env serves _ _ _ _

  pub data_init_aligned-Keeps :
      (size align : ℕ) → Keeps (IsBalanced cap) (data_init_aligned env size align)
  unfolding data_init_aligned
  data_init_aligned-Keeps size align =
      search (balance_rules, register-Keeps small env serves) depth 9
