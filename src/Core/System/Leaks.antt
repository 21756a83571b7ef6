-- ===== src/Core/System/Leaks.antt =====
-- No call loses bytes of the segment.
use arax_g_rpc.Prelude.{ℕ, ◌+◌, ◌<◌, ◌≡◌, refl, ap, [], arith}
use arax_g_rpc.Throttle.{u64}
use arax_g_rpc.Core.World.{World, Platform}
use arax_g_rpc.Core.World.Keeps.{Keeps, keeps_rules}
use arax_g_rpc.Core.World.Balance.{IsBalanced, total}
use arax_g_rpc.Core.Object.Balance.{Serves, ref_inc-Keeps, rename-Keeps}
use arax_g_rpc.Core.Accel.Balance.{
  add_vaccel-Keeps, del_vaccel-Keeps, wait_for_task-Keeps, size_inc-Keeps, size_dec-Keeps,
}
use arax_g_rpc.Core.Vaccel.Balance.{pop_task-Keeps}
use arax_g_rpc.Core.Create.Balance.{
  vaccel_init-Keeps, accel_init-Keeps, proc_init-Keeps, data_init_aligned-Keeps,
}
use arax_g_rpc.Core.Data.Balance.{migrate_accel-Keeps, set_accel-Keeps, set_remote-Keeps}
use arax_g_rpc.Core.Task.Balance.{issue-Keeps, mark_done-Keeps, wait_done-Keeps}
use arax_g_rpc.Core.Release.{ref_dec}
use arax_g_rpc.Core.Release.Balance.{ref_dec-Keeps, ref_dec_pre_locked-Keeps}
use arax_g_rpc.Core.Exchange.Balance.{
  get_issue-Keeps, get_collect-Keeps, set-Keeps, allocate_issue-Keeps, allocate_collect-Keeps,
}
use arax_g_rpc.Core.Listing.Balance.{list_free-Keeps, list-Keeps, proc_register-Keeps}
use arax_g_rpc.Core.System.{
  Call, new_accel, new_vaccel, new_proc, new_data, name_object, ref, unref, unref_pre_locked,
  assign, unassign, wait_for_task, take_bytes, give_bytes, issue, pop_task, mark_done, wait_done,
  migrate, set_accel, set_remote, get_issue, get_collect, set, allocate_issue, allocate_collect,
  list_accels, free_list, register_proc, perform, Reach, start, later, fresh,
}

module _ {cap : ℕ} (small : cap < u64) (env : Platform) (serves : Serves env) (fuel : ℕ) where
  perform-Keeps : (c : Call) → Keeps (IsBalanced cap) (perform env fuel c)
  unfolding perform
  perform-Keeps (new_accel name type size capacity) =
      search (keeps_rules, accel_init-Keeps small env serves)
  perform-Keeps (new_vaccel name type accel) =
      search (keeps_rules, vaccel_init-Keeps small env serves)
  perform-Keeps (new_proc name) = search (keeps_rules, proc_init-Keeps small env serves)
  perform-Keeps (new_data size align) =
      search (keeps_rules, data_init_aligned-Keeps small env serves)
  perform-Keeps (name_object p name) = rename-Keeps p name
  perform-Keeps (ref p) = ref_inc-Keeps p
  perform-Keeps (unref p) = search (keeps_rules, ref_dec-Keeps small env serves fuel)
  perform-Keeps (unref_pre_locked p) =
      search (keeps_rules, ref_dec_pre_locked-Keeps small env serves fuel)
  perform-Keeps (assign a v) = add_vaccel-Keeps a v
  perform-Keeps (unassign a v) = del_vaccel-Keeps a v
  perform-Keeps (wait_for_task p) = wait_for_task-Keeps p
  perform-Keeps (take_bytes p n) = size_dec-Keeps p n
  perform-Keeps (give_bytes p n) = size_inc-Keeps p n
  perform-Keeps (issue a p host n ins outs) = search (
    keeps_rules,
    issue-Keeps small env serves (ref_dec env fuel) (ref_dec-Keeps small env serves fuel),
  )
  perform-Keeps (pop_task p) = search (keeps_rules, pop_task-Keeps)
  perform-Keeps (mark_done p s) = mark_done-Keeps p s
  perform-Keeps (wait_done p) = wait_done-Keeps p
  perform-Keeps (migrate d a) =
      migrate_accel-Keeps (ref_dec env fuel) (ref_dec-Keeps small env serves fuel) d a
  perform-Keeps (set_accel d a) = set_accel-Keeps d a
  perform-Keeps (set_remote d a r) = set_remote-Keeps d a r
  perform-Keeps (get_issue d) = search (
    keeps_rules,
    get_issue-Keeps small env serves (ref_dec env fuel) (ref_dec-Keeps small env serves fuel),
  )
  perform-Keeps (get_collect d user p t) = search (
    keeps_rules,
    get_collect-Keeps small env serves (ref_dec env fuel) (ref_dec-Keeps small env serves fuel),
  )
  perform-Keeps (set d a user) =
      set-Keeps small env serves (ref_dec env fuel) (ref_dec-Keeps small env serves fuel) d a user
  perform-Keeps (allocate_issue d a) = search (
    keeps_rules,
    allocate_issue-Keeps small env serves (ref_dec env fuel) (ref_dec-Keeps small env serves fuel),
  )
  perform-Keeps (allocate_collect d a t) =
      allocate_collect-Keeps small env serves (ref_dec env fuel)
        (ref_dec-Keeps small env serves fuel) d a t
  perform-Keeps (list_accels type physical accels) =
      search (keeps_rules, list-Keeps small env serves fuel)
  perform-Keeps (free_list accels) = list_free-Keeps small env serves fuel accels
  perform-Keeps (register_proc name) = search (keeps_rules, proc_register-Keeps small env serves)

  Reach-Keeps : {w u : World} → IsBalanced cap w → Reach env fuel w u → IsBalanced cap u
  Reach-Keeps h start = h
  Reach-Keeps h (later r c e) = (perform-Keeps c).at _ _ _ (Reach-Keeps h r) e

-- Whatever calls are made on a fresh segment, while the allocator serves what the throttle lets
-- through, the bytes available and the sizes of the objects that live make up the capacity; so when
-- the last object is gone the bytes available are again those that there were at first, which is what
-- the last `arax_exit` asserts.
pub no_leak :
    (size fuel : ℕ) (env : Platform) {w : World}
    → size < u64
    → Serves env
    → Reach env fuel (fresh size) w
    → (w.throttle.available + total w.cells ≡ size)
      × (w.cells ≡ [] → w.throttle.available ≡ (fresh size).throttle.available)
unfolding total
no_leak size fuel env {w} small serves r =
    (balanced.counted, λ e. omega (arith, balanced.counted, ap total e))
  where
    balanced : IsBalanced size w
    balanced = Reach-Keeps small env serves fuel (record { counted = omega arith; whole = refl }) r
