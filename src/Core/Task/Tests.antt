-- ===== src/Core/Task/Tests.antt =====
-- A task at address 96, issued and not yet done.
use arax_g_rpc.Prelude.{◌≡◌, ◌≢◌, ◌⊎◌, refl, true, false, [], ◌∷◌}
use arax_g_rpc.Prelude.Outcome.{ok, abort, blocked}
use arax_g_rpc.Core.World.{
  Task, task_failed, task_issued, task_completed, task, Object, World, ◌>>◌,
}
use arax_g_rpc.Core.World.Memory.{find}
use arax_g_rpc.Core.Task.{mark_done, wait}
use arax_g_rpc.Core.Task.Completion.{with_task, wait_lem, wait-mark_done}

abbrev copying : Task
copying = record {
  accel = 0;
  proc = 64;
  host_size = 0;
  in_count = 1;
  out_count = 0;
  state = task_issued;
  done = false;
  io = 128 ∷ [];
  host = [];
}

abbrev held : Object
held = record { alloc_size = 90; ref_count = 1; name = []; body = task copying }

abbrev one_task : World
one_task = record {
  cells = record { address = 96; object = held } ∷ [];
  repo = record { accels = []; vaccels = []; procs = []; datas = []; tasks = 96 ∷ [] };
  throttle = record { available = 910; capacity = 1000 };
  orphan_vacs = [];
}

wait_lem_example :
    (copying.state ≡ task_failed) × (wait 96 one_task ≡ abort)
    ⊎ (copying.state ≢ task_failed) × (copying.done ≡ false) × (wait 96 one_task ≡ blocked)
    ⊎ (copying.state ≢ task_failed)
      × (copying.done ≡ true)
      × (wait 96 one_task
          ≡ ok (copying.state, with_task 96 held (record copying { done = false }) one_task))
unfolding find
wait_lem_example = wait_lem 96 one_task held copying refl refl

wait-mark_done_example :
    (do mark_done 96 task_completed; wait 96) one_task
    ≡ ok (
      task_completed,
      with_task 96 held (record copying { state = task_completed; done = false }) one_task,
    )
unfolding find
wait-mark_done_example = wait-mark_done 96 one_task held copying task_completed refl refl (λ e. cc)
