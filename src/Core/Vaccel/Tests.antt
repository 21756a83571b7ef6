-- ===== src/Core/Vaccel/Tests.antt =====
-- A virtual accelerator at address 512 with two tasks in its queue.
use arax_g_rpc.Prelude.{◌≡◌, refl, [], ◌∷◌, ◌++◌, replicate, arith}
use arax_g_rpc.Prelude.Outcome.{ok}
use arax_g_rpc.Queue.{used_slots}
use arax_g_rpc.Queue.Spec
use arax_g_rpc.Queue.Inv.{IsValid}
use arax_g_rpc.Queue.Refine.{contents}
use arax_g_rpc.Core.World.{Vaccel, virt, Object, World, ◌>>◌, sequential}
use arax_g_rpc.Core.World.Memory.{find}
use arax_g_rpc.Core.Vaccel.{queue_capacity, add_task, pop_task}
use arax_g_rpc.Core.Vaccel.Order.{pop_task-add_task}

abbrev pending : Vaccel
pending = record {
  type = 3;
  ordering = sequential;
  cid = 0;
  priority = 0;
  phys = 0;
  meta = 0;
  queue = record { entries = 96 ∷ 192 ∷ replicate 254 0; bottom = 2; top = 0 };
}

pending-IsValid : IsValid queue_capacity pending.queue
unfolding used_slots
pending-IsValid = record {
  storage = refl;
  bottom_in = omega arith;
  top_in = omega arith;
  fits = omega arith;
}

abbrev held : Object
held = record { alloc_size = 4000; ref_count = 1; name = []; body = virt pending }

abbrev one_vaccel : World
one_vaccel = record {
  cells = record { address = 512; object = held } ∷ [];
  repo = record { accels = []; vaccels = 512 ∷ []; procs = []; datas = []; tasks = [] };
  throttle = record { available = 6000; capacity = 10000 };
  orphan_vacs = 512 ∷ [];
}

pop_task-add_task_example :
    (w' : World) × ((do add_task 512 288; pop_task 512) one_vaccel
      ≡ ok ((Spec.pop (contents queue_capacity pending.queue ++ (288 ∷ []))).0, w'))
unfolding find used_slots
pop_task-add_task_example =
    pop_task-add_task 512 one_vaccel held pending 288 refl refl refl pending-IsValid
      (λ e. omega (arith, e)) (omega arith)
