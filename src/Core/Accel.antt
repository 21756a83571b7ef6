-- ===== src/Core/Accel.antt =====
-- src/core/arax_accel.c: physical accelerators, their pending tasks and their virtual accelerators.
pub mod Balance
use arax_g_rpc.Prelude.{
  ℕ, ◌+◌, ◌-◌, ◌%◌, ◌^◌, Bool, true, false, not, List, [], ◌∷◌, ltb, ◌==◌, if◌then◌else◌, length,
}
use arax_g_rpc.Prelude.Outcome.{Outcome, ok, blocked, arax_assert}
use arax_g_rpc.Queue
use arax_g_rpc.Throttle
use arax_g_rpc.Throttle.{u64}
use arax_g_rpc.Core.World.{
  Ptr, Accel, AccelState, Vaccel, Body, phys, virt, Object, World, M, pure, ◌>>=◌, ◌>>◌, lift, gets,
  modify,
}
use arax_g_rpc.Core.World.Memory.{load, load_phys, load_virt, store_body, unlink}
use arax_g_rpc.Core.Orphans.{remove_orphan_vaccel}

-- `size_t` addition and subtraction
abbrev pub add_size : ℕ → ℕ → ℕ
add_size a b = (a + b) % u64

abbrev pub sub_size : ℕ → ℕ → ℕ
sub_size a b = (a + (u64 - b)) % u64

-- The wait ends when a task is pending.
unfoldable pub wait_for_task : Ptr → M (Unit {0})
unfolding load_phys store_body
wait_for_task p = do
  a ← load_phys p
  if a.tasks == 0 then lift blocked else store_body p (phys (record a { tasks = a.tasks - 1 }))

unfoldable pub add_task : Ptr → M (Unit {0})
unfolding load_phys store_body
add_task p = do a ← load_phys p; store_body p (phys (record a { tasks = add_size a.tasks 1 }))

unfoldable pub pending_tasks : Ptr → M ℕ
unfolding load_phys
pending_tasks p = do a ← load_phys p; pure a.tasks

unfoldable pub size_inc : Ptr → ℕ → M (Unit {0})
unfolding load_phys store_body Throttle.size_inc
size_inc p sz = do
  a ← load_phys p
  t ← lift (Throttle.size_inc a.throttle sz)
  store_body p (phys (record a { throttle = t }))

unfoldable pub size_dec : Ptr → ℕ → M (Unit {0})
unfolding load_phys store_body Throttle.size_dec
size_dec p sz = do
  a ← load_phys p
  t ← lift (Throttle.size_dec a.throttle sz)
  store_body p (phys (record a { throttle = t }))

unfoldable pub get_available_size : Ptr → M ℕ
unfolding load_phys Throttle.get_available_size
get_available_size p = do a ← load_phys p; pure (Throttle.get_available_size a.throttle)

unfoldable pub get_total_size : Ptr → M ℕ
unfolding load_phys Throttle.get_total_size
get_total_size p = do a ← load_phys p; pure (Throttle.get_total_size a.throttle)

unfoldable pub get_name : Ptr → M (List ℕ)
unfolding load
get_name p = do o ← load p; pure o.name

unfoldable pub get_stat : Ptr → M AccelState
unfolding load_phys
get_stat p = do a ← load_phys p; pure a.state

unfoldable pub inc_revision : Ptr → M (Unit {0})
unfolding load_phys store_body
inc_revision p = do
  a ← load_phys p
  store_body p (phys (record a { revision = add_size a.revision 1 }))

unfoldable pub get_revision : Ptr → M ℕ
unfolding load_phys
get_revision p = do a ← load_phys p; pure a.revision

-- The branch of `arax_accel_add_vaccel` under the locks: the list, the tasks and `phys`.
link_vaccel : Ptr → Ptr → M (Unit {0})
unfolding load_phys load_virt store_body Queue.used_slots
link_vaccel accel vaccel = do
  a ← load_phys accel
  v ← load_virt vaccel
  let tasks = Queue.used_slots v.queue
  store_body accel (
      phys (record a {
        vaccels = vaccel ∷ a.vaccels;
        tasks = if tasks == 0 then a.tasks else add_size a.tasks tasks;
      }))
  store_body vaccel (virt (record v { phys = accel }))

unfoldable pub add_vaccel : Ptr → Ptr → M (Unit {0})
unfolding load_virt link_vaccel inc_revision remove_orphan_vaccel
add_vaccel accel vaccel = do
  v ← load_virt vaccel
  if v.phys == accel then pure tt else do
    lift (arax_assert (v.phys == 0))
    remove_orphan_vaccel vaccel
    link_vaccel accel vaccel
    inc_revision accel

-- The vaccels assigned, newest first.
unfoldable pub get_assigned_vaccels : Ptr → M (ℕ × List Ptr)
unfolding load_phys
get_assigned_vaccels p = do a ← load_phys p; pure (length a.vaccels, a.vaccels)

-- The part of `arax_accel_del_vaccel` under the locks. Of the pending tasks all but one are taken off.
unlink_vaccel : Ptr → Ptr → M (Unit {0})
unfolding load_phys load_virt store_body Queue.used_slots unlink
unlink_vaccel accel vaccel = do
  a ← load_phys accel
  v ← load_virt vaccel
  let tasks = Queue.used_slots v.queue
  store_body accel (
      phys (record a {
        vaccels = unlink vaccel a.vaccels;
        tasks = if tasks == 0 then a.tasks else sub_size a.tasks (tasks - 1);
      }))
  store_body vaccel (virt (record v { phys = 0 }))

unfoldable pub del_vaccel : Ptr → Ptr → M (Unit {0})
unfolding load_virt unlink_vaccel inc_revision
del_vaccel accel vaccel = do
  v ← load_virt vaccel
  lift (arax_assert (v.phys == accel))
  unlink_vaccel accel vaccel
  inc_revision accel
