-- ===== src/Core/Create.antt =====
-- src/core: the `_init` functions that register an object and fill it in.
pub mod Tests
pub mod Balance
pub mod Buffer
use arax_g_rpc.Prelude.{
  ℕ, ◌+◌, ◌-◌, ◌*◌, ◌%◌, ◌^◌, not, Bool, true, false, List, [], ◌∷◌, ltb, ◌==◌, if◌then◌else◌,
  replicate,
}
use arax_g_rpc.Prelude.Outcome.{Outcome, ok, arax_assert}
use arax_g_rpc.Queue
use arax_g_rpc.Throttle
use arax_g_rpc.AccelTypes.{accel_types}
use arax_g_rpc.Core.World.{
  Ptr, Accel, Vaccel, Proc, Data, Task, Body, phys, virt, proc, datum, task, Object, World,
  Platform, M, pure, ◌>>=◌, ◌>>◌, lift, gets, modify, accel_failed, accel_idle, sequential,
  task_failed,
}
use arax_g_rpc.Core.World.Memory.{store_body, load_phys}
use arax_g_rpc.Core.Object.{register}
use arax_g_rpc.Core.Orphans.{add_orphan_vaccel}
use arax_g_rpc.Core.Accel.{add_vaccel}
use arax_g_rpc.Core.Vaccel.{queue_capacity}

-- The structures as `memset` leaves them.
abbrev pub zero_accel : Accel
zero_accel = record {
  type = 0;
  state = accel_failed;
  vaccels = [];
  tasks = 0;
  revision = 0;
  throttle = record { available = 0; capacity = 0 };
  free_vaq = 0;
}

abbrev pub zero_vaccel : Vaccel
zero_vaccel = record {
  type = 0;
  ordering = sequential;
  cid = 0;
  priority = 0;
  phys = 0;
  meta = 0;
  queue = record { entries = replicate queue_capacity 0; bottom = 0; top = 0 };
}

abbrev pub zero_proc : Proc
zero_proc = record { functors = replicate accel_types 0; canrun = 0 }

abbrev pub zero_data : Data
zero_data = record {
  remote = 0;
  accel_meta = 0;
  accel = 0;
  size = 0;
  align = 0;
  flags = 0;
  buffer = 0;
  phys = 0;
}

abbrev pub zero_task : Task
zero_task = record {
  accel = 0;
  proc = 0;
  host_size = 0;
  in_count = 0;
  out_count = 0;
  state = task_failed;
  done = false;
  io = [];
  host = [];
}

-- `(uint64_t) -1`
abbrev pub minus_one : ℕ
minus_one = 2 ^ 64 - 1

module _ (env : Platform) where
  -- `accel` is NULL or the physical accelerator that serves the new vaccel.
  unfoldable pub vaccel_init : List ℕ → ℕ → Ptr → M Ptr
  unfolding register store_body Queue.init add_vaccel add_orphan_vaccel
  vaccel_init name type accel = do
    p ← register env name env.vaccel_size 1 (virt zero_vaccel)
    if p == 0 then pure 0 else do
      q ← lift (Queue.init queue_capacity)
      store_body p (
          virt
            (record zero_vaccel { type = type; cid = minus_one; priority = minus_one; queue = q }))
      if accel == 0 then add_orphan_vaccel p else add_vaccel accel p
      pure p

  unfoldable pub accel_init : List ℕ → ℕ → ℕ → ℕ → M Ptr
  unfolding register store_body load_phys Throttle.init vaccel_init
  accel_init name type size capacity = do
    p ← register env name env.accel_size 1 (phys zero_accel)
    if p == 0 then pure 0 else do
      t ← lift (Throttle.init size capacity)
      store_body p (phys (record zero_accel { type = type; state = accel_idle; throttle = t }))
      vaq ← vaccel_init name type p
      a ← load_phys p
      store_body p (phys (record a { free_vaq = vaq }))
      pure p

  unfoldable pub proc_init : List ℕ → M Ptr
  unfolding register
  proc_init name = register env name env.proc_size 1 (proc zero_proc)

  -- ARAX_BUFF_ALLOC_SIZE and the structure before the buffer
  unfoldable pub data_alloc_size : ℕ → ℕ → ℕ
  data_alloc_size size align = (env.data_size + (size + align + 8)) % 2 ^ 64

  -- The buffer of the data at `p`: behind the structure and a back pointer, then aligned.
  unfoldable pub buffer_of : Ptr → ℕ → Ptr
  buffer_of p align =
      let start = (p + env.data_size + 8) % 2 ^ 64 in
      (start + align + 2 ^ 64 - start % align) % 2 ^ 64

  unfoldable pub data_init_aligned : ℕ → ℕ → M Ptr
  unfolding register store_body data_alloc_size buffer_of
  data_init_aligned size align = do
    lift (arax_assert (not (align == 0)))
    p ←
        register env (b'U' ∷ b'N' ∷ b'U' ∷ b'S' ∷ b'E' ∷ b'D' ∷ []) (data_alloc_size size align) 1
          (datum zero_data)
    if p == 0 then pure 0 else do
      store_body p
          (datum (record zero_data { size = size; align = align; buffer = buffer_of p align }))
      pure p

  unfoldable pub data_init : ℕ → M Ptr
  unfolding data_init_aligned
  data_init size = data_init_aligned size 1
