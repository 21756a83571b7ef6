-- ===== src/Core/Release/Balance.antt =====
-- Dropping a reference keeps the balance of the segment, whatever destructors run.
use arax_g_rpc.Prelude.{ℕ, zero, suc, ◌<◌, List, [], ◌∷◌}
use arax_g_rpc.Throttle.{u64}
use arax_g_rpc.Core.World.{
  Ptr, ObjectType, Data, Platform, M, phys_accel, virt_accel, proc_type, data_type, task_type,
  type_count,
}
use arax_g_rpc.Core.World.Keeps.{Keeps, Keeps-bind}
use arax_g_rpc.Core.World.Balance.{IsBalanced, balance_rules}
use arax_g_rpc.Core.Object.Balance.{
  Serves, ref_inc-Keeps, ref_dec_with-Keeps, ref_dec_pre_locked_with-Keeps,
}
use arax_g_rpc.Core.Lookup.Reads.{find_proc-Keeps}
use arax_g_rpc.Core.Task.Balance.{issue-Keeps}
use arax_g_rpc.Core.Vaccel.Balance.{dtor-Keeps}
use arax_g_rpc.Core.Release.{
  proc_get, accel_release, dtor_accel, dec_all, dtor_task, free_remote, drop_accel, dtor_data, dtor,
  ref_dec, ref_dec_pre_locked,
}

module _ {cap : ℕ} (small : cap < u64) (env : Platform) (serves : Serves env) where
  pub proc_get-Keeps : (name : List ℕ) → Keeps (IsBalanced cap) (proc_get name)
  unfolding proc_get
  proc_get-Keeps name = search (balance_rules, find_proc-Keeps, ref_inc-Keeps)

  module _ (dec : Ptr → M ℕ) (keep : (p : Ptr) → Keeps (IsBalanced cap) (dec p)) where
    pub accel_release-Keeps : (p : Ptr) → Keeps (IsBalanced cap) (accel_release env dec p)
    unfolding accel_release
    accel_release-Keeps p = search (balance_rules, keep) depth 9

    dtor_accel-Keeps : (p : Ptr) → Keeps (IsBalanced cap) (dtor_accel env dec p)
    unfolding dtor_accel
    dtor_accel-Keeps p = search (balance_rules, accel_release-Keeps) depth 9

    dec_all-Keeps : (ps : List Ptr) → Keeps (IsBalanced cap) (dec_all env dec ps)
    unfolding dec_all
    dec_all-Keeps [] = search balance_rules
    dec_all-Keeps (p ∷ ps) = Keeps-bind _ _ (keep p) λ _. dec_all-Keeps ps

    dtor_task-Keeps : (p : Ptr) → Keeps (IsBalanced cap) (dtor_task env dec p)
    unfolding dtor_task
    dtor_task-Keeps p = search (balance_rules, keep, dec_all-Keeps) depth 9

    free_remote-Keeps : (p : Ptr) (d : Data) → Keeps (IsBalanced cap) (free_remote env dec p d)
    unfolding free_remote
    free_remote-Keeps p d =
        search (balance_rules, keep, proc_get-Keeps, issue-Keeps small env serves dec keep) depth 9

    drop_accel-Keeps : (d : Data) → Keeps (IsBalanced cap) (drop_accel env dec d)
    unfolding drop_accel
    drop_accel-Keeps d = search (balance_rules, keep) depth 9

    dtor_data-Keeps : (p : Ptr) → Keeps (IsBalanced cap) (dtor_data env dec p)
    unfolding dtor_data
    dtor_data-Keeps p = search (balance_rules, free_remote-Keeps, drop_accel-Keeps) depth 9

    dtor-table-Keeps : (t : ObjectType) (p : Ptr) → Keeps (IsBalanced cap) (dtor env dec t p)
    unfolding dtor
    dtor-table-Keeps phys_accel p = dtor_accel-Keeps p
    dtor-table-Keeps virt_accel p = dtor-Keeps p
    dtor-table-Keeps proc_type p = search balance_rules
    dtor-table-Keeps data_type p = dtor_data-Keeps p
    dtor-table-Keeps task_type p = dtor_task-Keeps p
    dtor-table-Keeps type_count p = search balance_rules

  pub ref_dec-Keeps : (fuel : ℕ) (p : Ptr) → Keeps (IsBalanced cap) (ref_dec env fuel p)
  unfolding ref_dec
  ref_dec-Keeps zero p = search balance_rules
  ref_dec-Keeps (suc fuel) p =
      ref_dec_with-Keeps small (dtor env (ref_dec env fuel))
        (dtor-table-Keeps (ref_dec env fuel) (ref_dec-Keeps fuel)) p

  pub ref_dec_pre_locked-Keeps :
      (fuel : ℕ) (p : Ptr) → Keeps (IsBalanced cap) (ref_dec_pre_locked env fuel p)
  unfolding ref_dec_pre_locked
  ref_dec_pre_locked-Keeps fuel p =
      ref_dec_pre_locked_with-Keeps small (dtor env (ref_dec env fuel))
        (dtor-table-Keeps (ref_dec env fuel) (ref_dec-Keeps fuel)) p
