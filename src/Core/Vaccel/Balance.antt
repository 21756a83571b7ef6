-- ===== src/Core/Vaccel/Balance.antt =====
-- The calls of src/core/arax_vaccel.c keep the balance of the segment.
use arax_g_rpc.Prelude.{ℕ}
use arax_g_rpc.Core.World.{Ptr}
use arax_g_rpc.Core.World.Keeps.{Keeps}
use arax_g_rpc.Core.World.Balance.{IsBalanced, balance_rules}
use arax_g_rpc.Core.Orphans.Balance.{remove_orphan_vaccel-Keeps}
use arax_g_rpc.Core.Accel.Balance
use arax_g_rpc.Core.Accel.Balance.{del_vaccel-Keeps}
use arax_g_rpc.Core.Vaccel.{add_task, pop_task, dtor}

module _ {cap : ℕ} where
  pub add_task-Keeps : (p t : Ptr) → Keeps (IsBalanced cap) (add_task p t)
  unfolding add_task
  add_task-Keeps p t = search (balance_rules, Balance.add_task-Keeps) depth 9

  pub pop_task-Keeps : (p : Ptr) → Keeps (IsBalanced cap) (pop_task p)
  unfolding pop_task
  pop_task-Keeps p = search balance_rules

  pub dtor-Keeps : (p : Ptr) → Keeps (IsBalanced cap) (dtor p)
  unfolding dtor
  dtor-Keeps p = search (balance_rules, del_vaccel-Keeps, remove_orphan_vaccel-Keeps)
