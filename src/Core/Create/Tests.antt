-- ===== src/Core/Create/Tests.antt =====
-- The buffer of a data object at a concrete address.
use arax_g_rpc.Prelude.{◌+◌, ◌-◌, ◌%◌, ◌≡◌, ◌≤◌, arith}
use arax_g_rpc.Core.World.{Platform}
use arax_g_rpc.Core.Create.{data_alloc_size, buffer_of}
use arax_g_rpc.Core.Create.Buffer.{buffer_fits}

abbrev machine : Platform
machine = record {
  allocate = λ cs n. 4096;
  accel_size = 200;
  vaccel_size = 4000;
  proc_size = 120;
  data_size = 150;
  task_size = 90;
}

buffer_fits_example :
    (buffer_of machine 4096 64 % 64 ≡ 0)
    × (4096 + 150 ≤ buffer_of machine 4096 64 - 8)
    × (buffer_of machine 4096 64 + 1000 ≤ 4096 + data_alloc_size machine 1000 64)
buffer_fits_example = buffer_fits machine 4096 1000 64 (omega arith) (omega arith)
