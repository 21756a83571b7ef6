-- ===== src/Core/Accel/Balance.antt =====
-- The calls of src/core/arax_accel.c keep the balance of the segment.
use arax_g_rpc.Prelude.{ℕ}
use arax_g_rpc.Core.World.{Ptr}
use arax_g_rpc.Core.World.Keeps.{Keeps}
use arax_g_rpc.Core.World.Balance.{IsBalanced, balance_rules}
use arax_g_rpc.Core.Orphans.Balance.{remove_orphan_vaccel-Keeps}
use arax_g_rpc.Core.Accel.{
  add_task, inc_revision, link_vaccel, add_vaccel, unlink_vaccel, del_vaccel, size_inc, size_dec,
  wait_for_task,
}

module _ {cap : ℕ} where
  pub add_task-Keeps : (p : Ptr) → Keeps (IsBalanced cap) (add_task p)
  unfolding add_task
  add_task-Keeps p = search balance_rules

  pub wait_for_task-Keeps : (p : Ptr) → Keeps (IsBalanced cap) (wait_for_task p)
  unfolding wait_for_task
  wait_for_task-Keeps p = search balance_rules

  pub size_inc-Keeps : (p : Ptr) (sz : ℕ) → Keeps (IsBalanced cap) (size_inc p sz)
  unfolding size_inc
  size_inc-Keeps p sz = search balance_rules

  pub size_dec-Keeps : (p : Ptr) (sz : ℕ) → Keeps (IsBalanced cap) (size_dec p sz)
  unfolding size_dec
  size_dec-Keeps p sz = search balance_rules

  inc_revision-Keeps : (p : Ptr) → Keeps (IsBalanced cap) (inc_revision p)
  unfolding inc_revision
  inc_revision-Keeps p = search balance_rules

  link_vaccel-Keeps : (a v : Ptr) → Keeps (IsBalanced cap) (link_vaccel a v)
  unfolding link_vaccel
  link_vaccel-Keeps a v = search balance_rules

  unlink_vaccel-Keeps : (a v : Ptr) → Keeps (IsBalanced cap) (unlink_vaccel a v)
  unfolding unlink_vaccel
  unlink_vaccel-Keeps a v = search balance_rules

  pub add_vaccel-Keeps : (a v : Ptr) → Keeps (IsBalanced cap) (add_vaccel a v)
  unfolding add_vaccel
  add_vaccel-Keeps a v =
      search (balance_rules, link_vaccel-Keeps, inc_revision-Keeps, remove_orphan_vaccel-Keeps)
        depth 9

  pub del_vaccel-Keeps : (a v : Ptr) → Keeps (IsBalanced cap) (del_vaccel a v)
  unfolding del_vaccel
  del_vaccel-Keeps a v = search (balance_rules, unlink_vaccel-Keeps, inc_revision-Keeps) depth 9
