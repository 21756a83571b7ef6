-- ===== src/Core/Task.antt =====
-- src/core/arax_task.c, and the calls on tasks of src/arch/shm/impl.c.
-- `dec` stands for `arax_object_ref_dec`.
pub mod Balance
pub mod Completion
pub mod Tests
use arax_g_rpc.Prelude.{
  ℕ, ◌+◌, ◌*◌, ◌%◌, ◌^◌, Bool, true, false, not, ◌&&◌, ◌||◌, List, [], ◌∷◌, ◌++◌, Option, none,
  some, ◌==◌, if◌then◌else◌, length,
}
use arax_g_rpc.Prelude.Outcome.{Outcome, ok, blocked, arax_assert}
use arax_g_rpc.Core.World.{
  Ptr, ObjectType, Task, TaskState, Body, task, type_of, Object, World, Platform, M, pure, ◌>>=◌,
  ◌>>◌, lift, gets, modify, task_failed, task_issued, task_completed, data_type,
}
use arax_g_rpc.Core.World.Memory.{load, load_task, store_body}
use arax_g_rpc.Core.Object.{register, ref_inc}
use arax_g_rpc.Core.Create.{zero_task}
use arax_g_rpc.Core.Data.{input_init, output_init}
use arax_g_rpc.Core.Vaccel

unfoldable pub is_data : ObjectType → Bool
is_data data_type = true
is_data _ = false

-- A pointer of a task's arrays is not NULL, and leads to data.
valid_io : Ptr → M Bool
unfolding load is_data
valid_io p = if p == 0 then pure false else do o ← load p; pure (is_data (type_of o.body))

all_valid : List Ptr → M Bool
unfolding valid_io
all_valid [] = pure true
all_valid (p ∷ ps) = do good ← valid_io p; if good then all_valid ps else pure false

-- For each pointer the whole of both arrays is gone through once more.
semantics_from : List Ptr → List Ptr → M Bool
unfolding valid_io all_valid
semantics_from all [] = pure true
semantics_from all (p ∷ ps) = do
  good ← valid_io p
  again ← (if good then all_valid all else pure false)
  if again then semantics_from all ps else pure false

unfoldable pub check_semantics : List Ptr → List Ptr → M Bool
unfolding semantics_from
check_semantics ins outs = semantics_from (ins ++ outs) (ins ++ outs)

module _ (env : Platform) (dec : Ptr → M ℕ) where
  -- The loops that fill the `io` array: each data gets a reference and the accelerator.
  init_inputs : List Ptr → Ptr → M (Unit {0})
  unfolding input_init
  init_inputs [] accel = pure tt
  init_inputs (d ∷ ds) accel = do input_init dec d accel; init_inputs ds accel

  init_outputs : List Ptr → Ptr → M (Unit {0})
  unfolding output_init
  init_outputs [] accel = pure tt
  init_outputs (d ∷ ds) accel = do output_init dec d accel; init_outputs ds accel

  unfoldable pub alloc : Ptr → Ptr → ℕ → List Ptr → List Ptr → M Ptr
  unfolding register store_body init_inputs init_outputs
  alloc accel proc host_size ins outs = do
    lift (arax_assert (not (accel == 0)))
    lift (arax_assert (not (proc == 0)))
    p ←
        register env (b'T' ∷ b'a' ∷ b's' ∷ b'k' ∷ [])
          ((env.task_size + 8 * (length ins + length outs) + host_size) % 2 ^ 64) 1 (task zero_task)
    if p == 0 then pure 0 else do
      store_body p (
          task (record zero_task {
            accel = accel;
            proc = proc;
            in_count = length ins;
            out_count = length outs;
            host_size = host_size;
            io = ins ++ outs;
          }))
      init_inputs ins accel
      init_outputs outs accel
      pure p

-- The host data, where the size asked for is the task's.
unfoldable pub host_data : Ptr → ℕ → M (List ℕ)
unfolding load_task
host_data p size = do
  t ← load_task p
  lift (arax_assert (size == t.host_size))
  pure (if t.host_size == 0 then [] else t.host)

-- `memcpy(arax_task_host_data(p, size), host, size)`
put_host : Ptr → ℕ → List ℕ → M (Unit {0})
unfolding load_task store_body
put_host p size host = do
  t ← load_task p
  lift (arax_assert (size == t.host_size))
  store_body p (task (record t { host = host }))

-- The copy is made where there is something to copy.
put_init : Ptr → ℕ → Option (List ℕ) → M (Unit {0})
unfolding put_host
put_init p size none = pure tt
put_init p size (some host) = if size == 0 then pure tt else put_host p size host

unfoldable pub submit : Ptr → M (Unit {0})
unfolding load_task store_body ref_inc Vaccel.add_task
submit p = do
  t ← load_task p
  ref_inc t.accel
  u ← load_task p
  store_body p (task (record u { state = task_issued }))
  Vaccel.add_task t.accel p

unfoldable pub is_issued_or_completed : TaskState → Bool
is_issued_or_completed task_failed = false
is_issued_or_completed task_issued = true
is_issued_or_completed task_completed = true

-- The wait takes the completion: a second one waits for another.
unfoldable pub wait_done : Ptr → M (Unit {0})
unfolding load_task store_body is_issued_or_completed
wait_done p = do
  t ← load_task p
  lift (arax_assert (is_issued_or_completed t.state))
  if t.done then store_body p (task (record t { done = false })) else lift blocked

unfoldable pub mark_done : Ptr → TaskState → M (Unit {0})
unfolding load_task store_body
mark_done p s = do t ← load_task p; store_body p (task (record t { state = s; done = true }))

unfoldable pub stat : Ptr → M TaskState
unfolding load_task
stat p = do t ← load_task p; pure t.state

unfoldable pub wait : Ptr → M TaskState
unfolding load_task wait_done
wait p = do wait_done p; t ← load_task p; pure t.state

module _ (env : Platform) (dec : Ptr → M ℕ) where
  unfoldable pub issue : Ptr → Ptr → Option (List ℕ) → ℕ → List Ptr → List Ptr → M Ptr
  unfolding check_semantics alloc put_init submit
  issue accel proc host_init host_size ins outs = do
    sound ← check_semantics ins outs
    lift (arax_assert sound)
    p ← alloc env dec accel proc host_size ins outs
    lift (arax_assert (not (p == 0)))
    put_init p host_size host_init
    submit p
    pure p

  -- `served` is what the controller and the other threads do to the segment while the call waits.
  unfoldable pub issue_sync :
      (World → World) → Ptr → Ptr → Option (List ℕ) → ℕ → List Ptr → List Ptr → M TaskState
  unfolding issue wait
  issue_sync served accel proc host_init host_size ins outs = do
    p ← issue accel proc host_init host_size ins outs
    modify served
    s ← wait p
    _ ← dec p
    pure s
