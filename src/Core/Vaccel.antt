-- ===== src/Core/Vaccel.antt =====
-- src/core/arax_vaccel.c: virtual accelerators, each with a queue of tasks.
pub mod Balance
pub mod Order
pub mod Tests
use arax_g_rpc.Prelude.{ℕ, Bool, List, [], ◌∷◌, ◌==◌, if◌then◌else◌}
use arax_g_rpc.Prelude.Outcome.{Outcome, ok, blocked}
use arax_g_rpc.Queue
use arax_g_rpc.Core.World.{
  Ptr, AccelState, Ordering, Vaccel, Body, phys, virt, Object, World, M, pure, ◌>>=◌, ◌>>◌, lift,
  gets, modify,
}
use arax_g_rpc.Core.World.Memory.{load_virt, store_body}
use arax_g_rpc.Core.Orphans.{remove_orphan_vaccel}
use arax_g_rpc.Core.Accel

-- UTILS_QUEUE_CAPACITY as configured
abbrev pub queue_capacity : ℕ
queue_capacity = 256

-- The call spins, with the lock of the vaccel taken, while the queue is full.
unfoldable pub add_task : Ptr → Ptr → M (Unit {0})
unfolding load_virt store_body Queue.push Accel.add_task
add_task p task = do
  v ← load_virt p
  (r, q) ← lift (Queue.push queue_capacity v.queue task)
  if r == 0 then lift blocked else store_body p (virt (record v { queue = q }))
  if v.phys == 0 then pure tt else Accel.add_task v.phys

unfoldable pub set_ordering : Ptr → Ordering → M (Unit {0})
unfolding load_virt store_body
set_ordering p o = do v ← load_virt p; store_body p (virt (record v { ordering = o }))

unfoldable pub get_ordering : Ptr → M Ordering
unfolding load_virt
get_ordering p = do v ← load_virt p; pure v.ordering

unfoldable pub set_cid : Ptr → ℕ → M ℕ
unfolding load_virt store_body
set_cid p cid = do v ← load_virt p; store_body p (virt (record v { cid = cid })); pure cid

unfoldable pub get_cid : Ptr → M ℕ
unfolding load_virt
get_cid p = do v ← load_virt p; pure v.cid

unfoldable pub set_job_priority : Ptr → ℕ → M ℕ
unfolding load_virt store_body
set_job_priority p n = do v ← load_virt p; store_body p (virt (record v { priority = n })); pure n

unfoldable pub get_job_priority : Ptr → M ℕ
unfolding load_virt
get_job_priority p = do v ← load_virt p; pure v.priority

unfoldable pub set_meta : Ptr → Ptr → M (Unit {0})
unfolding load_virt store_body
set_meta p meta = do v ← load_virt p; store_body p (virt (record v { meta = meta }))

unfoldable pub get_meta : Ptr → M Ptr
unfolding load_virt
get_meta p = do v ← load_virt p; pure v.meta

unfoldable pub queue_size : Ptr → M ℕ
unfolding load_virt Queue.used_slots
queue_size p = do v ← load_virt p; pure (Queue.used_slots v.queue)

-- What the controller does with the queue of a vaccel: `utils_queue_pop(arax_vaccel_queue(p))`.
unfoldable pub pop_task : Ptr → M Ptr
unfolding load_virt store_body Queue.pop
pop_task p = do
  v ← load_virt p
  let (t, q) = Queue.pop queue_capacity v.queue
  store_body p (virt (record v { queue = q }))
  pure t

unfoldable pub get_stat : Ptr → M AccelState
unfolding load_virt Accel.get_stat
get_stat p = do v ← load_virt p; Accel.get_stat v.phys

-- The destructor of `arax_vaccel_s`
unfoldable pub dtor : Ptr → M (Unit {0})
unfolding load_virt Accel.del_vaccel remove_orphan_vaccel
dtor p = do
  v ← load_virt p
  if v.phys == 0 then remove_orphan_vaccel p else Accel.del_vaccel v.phys p
