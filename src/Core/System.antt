-- ===== src/Core/System.antt =====
-- The calls that applications and the controller make on the objects of one segment, in any order
-- (src/core and src/arch/shm/impl.c), and the segments that such calls lead to.
pub mod Tests
pub mod Leaks
use arax_g_rpc.Prelude.{ℕ, ◌<◌, Bool, ◌≡◌, List, [], Option}
use arax_g_rpc.Prelude.Outcome.{ok}
use arax_g_rpc.Core.World.{Ptr, TaskState, Repo, World, Platform, M, pure, ◌>>=◌, ◌>>◌}
use arax_g_rpc.Core.Object.{repo_init, rename, ref_inc}
use arax_g_rpc.Core.Accel
use arax_g_rpc.Core.Vaccel
use arax_g_rpc.Core.Create.{vaccel_init, accel_init, proc_init, data_init_aligned}
use arax_g_rpc.Core.Data
use arax_g_rpc.Core.Task
use arax_g_rpc.Core.Release.{ref_dec, ref_dec_pre_locked}
use arax_g_rpc.Core.Exchange
use arax_g_rpc.Core.Listing

pub data Call : Type 0 where
  new_accel : (name : List ℕ) (type size capacity : ℕ) → Call
  new_vaccel : (name : List ℕ) (type : ℕ) (accel : Ptr) → Call
  new_proc : (name : List ℕ) → Call
  new_data : (size align : ℕ) → Call
  name_object : Ptr → List ℕ → Call
  ref : Ptr → Call
  unref : Ptr → Call
  unref_pre_locked : Ptr → Call
  assign : (accel vaccel : Ptr) → Call
  unassign : (accel vaccel : Ptr) → Call
  wait_for_task : Ptr → Call
  take_bytes : Ptr → ℕ → Call
  give_bytes : Ptr → ℕ → Call
  issue : (accel proc : Ptr) → Option (List ℕ) → ℕ → (ins outs : List Ptr) → Call
  pop_task : Ptr → Call
  mark_done : Ptr → TaskState → Call
  wait_done : Ptr → Call
  migrate : (data_ accel : Ptr) → Call
  set_accel : (data_ accel : Ptr) → Call
  set_remote : (data_ accel remote : Ptr) → Call
  get_issue : (data_ : Ptr) → Call
  get_collect : (data_ user proc task : Ptr) → Call
  set : (data_ accel : Ptr) → Option (List ℕ) → Call
  allocate_issue : (data_ accel : Ptr) → Call
  allocate_collect : (data_ accel task : Ptr) → Call
  list_accels : (type : ℕ) (physical : Bool) → Option (List Ptr) → Call
  free_list : List Ptr → Call
  register_proc : (name : List ℕ) → Call

module _ (env : Platform) (fuel : ℕ) where
  -- The call made, and its result forgotten.
  unfoldable pub perform : Call → M (Unit {0})
  perform (new_accel name type size capacity) = do
    _ ← accel_init env name type size capacity
    pure tt
  perform (new_vaccel name type accel) = do _ ← vaccel_init env name type accel; pure tt
  perform (new_proc name) = do _ ← proc_init env name; pure tt
  perform (new_data size align) = do _ ← data_init_aligned env size align; pure tt
  perform (name_object p name) = rename p name
  perform (ref p) = ref_inc p
  perform (unref p) = do _ ← ref_dec env fuel p; pure tt
  perform (unref_pre_locked p) = do _ ← ref_dec_pre_locked env fuel p; pure tt
  perform (assign accel vaccel) = Accel.add_vaccel accel vaccel
  perform (unassign accel vaccel) = Accel.del_vaccel accel vaccel
  perform (wait_for_task p) = Accel.wait_for_task p
  perform (take_bytes p n) = Accel.size_dec p n
  perform (give_bytes p n) = Accel.size_inc p n
  perform (issue accel proc host n ins outs) = do
    _ ← Task.issue env (ref_dec env fuel) accel proc host n ins outs
    pure tt
  perform (pop_task p) = do _ ← Vaccel.pop_task p; pure tt
  perform (mark_done p s) = Task.mark_done p s
  perform (wait_done p) = Task.wait_done p
  perform (migrate d accel) = Data.migrate_accel (ref_dec env fuel) d accel
  perform (set_accel d accel) = Data.set_accel d accel
  perform (set_remote d accel remote) = Data.set_remote d accel remote
  perform (get_issue d) = do _ ← Exchange.get_issue env (ref_dec env fuel) d; pure tt
  perform (get_collect d user proc task) = do
    _ ← Exchange.get_collect env (ref_dec env fuel) d user proc task
    pure tt
  perform (set d accel user) = Exchange.set env (ref_dec env fuel) d accel user
  perform (allocate_issue d accel) = do
    _ ← Exchange.allocate_issue env (ref_dec env fuel) d accel
    pure tt
  perform (allocate_collect d accel task) =
      Exchange.allocate_collect env (ref_dec env fuel) d accel task
  perform (list_accels type physical accels) = do
    _ ← Listing.list env fuel type physical accels
    pure tt
  perform (free_list accels) = Listing.list_free env fuel accels
  perform (register_proc name) = do _ ← Listing.proc_register env name; pure tt

  pub data Reach (w : World) : World → Type 0 where
    start : Reach w w
    later : {v u : World} → Reach w v → (c : Call) → perform c v ≡ ok (tt, u) → Reach w u

-- The segment as `arax_pipe_init` leaves it, with `size` bytes for objects.
abbrev pub fresh : ℕ → World
fresh size = record {
  cells = [];
  repo = repo_init;
  throttle = record { available = size; capacity = size };
  orphan_vacs = [];
}
