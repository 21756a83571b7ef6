-- ===== src/Core/Exchange/Tests.antt =====
-- Runs of the calls of Core/Exchange: two data of four bytes at 1024 and 2048, both on the virtual
-- accelerator at 512 of the physical one at 256, and three procedures.
use arax_g_rpc.Prelude.{
  none, false, ℕ, ◌≡◌, refl, true, List, [], ◌∷◌, ◌==◌, if◌then◌else◌, replicate, some,
}
use arax_g_rpc.Prelude.Outcome.{ok, fault}
use arax_g_rpc.Core.World.{
  Ptr, Accel, Vaccel, Data, Body, phys, virt, proc, datum, Cell, World, Platform, accel_idle,
  sequential, task_completed, M, ◌>>=◌,
}
use arax_g_rpc.Core.World.Memory.{find, replace, remove}
use arax_g_rpc.Core.Create.{zero_proc}
use arax_g_rpc.Core.Task.{mark_done}
use arax_g_rpc.Core.Release.{ref_dec}
use arax_g_rpc.Core.Exchange.{
  get_name, set_name, alloc_name, get, set, memcpy, allocate_remote, ref, ref_offset,
}
use arax_g_rpc.Core.Exchange.Owner.{more}
use arax_g_rpc.Start.{Kernel, Process, Segment, running, ptr_valid}

abbrev machine : Platform
machine = record {
  allocate = λ cs n. 4096;
  accel_size = 200;
  vaccel_size = 4000;
  proc_size = 120;
  data_size = 150;
  task_size = 90;
}

abbrev board : Accel
board = record {
  type = 2;
  state = accel_idle;
  vaccels = 512 ∷ [];
  tasks = 0;
  revision = 0;
  throttle = record { available = 100; capacity = 100 };
  free_vaq = 0;
}

abbrev client : Vaccel
client = record {
  type = 2;
  ordering = sequential;
  cid = 0;
  priority = 0;
  phys = 256;
  meta = 0;
  queue = record { entries = replicate 256 0; bottom = 0; top = 0 };
}

abbrev four_bytes : ℕ → ℕ → Data
four_bytes remote buffer = record {
  remote = remote;
  accel_meta = 0;
  accel = 512;
  size = 4;
  align = 1;
  flags = 0;
  buffer = buffer;
  phys = 0;
}

abbrev cell : ℕ → ℕ → List ℕ → Body → Cell
cell address count name body = record {
  address = address;
  object = record { alloc_size = 200; ref_count = count; name = name; body = body };
}

abbrev two_data : World
two_data = record {
  cells =
      cell 64 1 get_name (proc zero_proc)
      ∷ cell 128 1 set_name (proc zero_proc)
      ∷ cell 192 1 alloc_name (proc zero_proc)
      ∷ cell 256 2 [] (phys board)
      ∷ cell 512 3 [] (virt client)
      ∷ cell 1024 1 [] (datum (four_bytes 77 1200))
      ∷ cell 2048 1 [] (datum (four_bytes 0 2224))
      ∷ [];
  repo = record {
    accels = 256 ∷ [];
    vaccels = 512 ∷ [];
    procs = 64 ∷ 128 ∷ 192 ∷ [];
    datas = 1024 ∷ 2048 ∷ [];
    tasks = [];
  };
  throttle = record { available = 8600; capacity = 10000 };
  orphan_vacs = [];
}

-- The controller completes the task at 4096.
abbrev completes : World → World
completes w = elim (mark_done 4096 task_completed w) [ ok (t, w') ↦ w' | _ ↦ w ]

counts : List Cell → List ℕ
counts [] = []
counts (c ∷ cs) = c.object.ref_count ∷ counts cs

-- The reference counts that a call leaves.
counts_after : {A : Type 0} → M A → List ℕ
unfolding counts
counts_after m = elim (m two_data) [ ok (a, w) ↦ counts w.cells | _ ↦ [] ]

-- A completed read leaves every reference count as it was.
get_test :
    counts_after (get machine (ref_dec machine 4) completes 1024 5000)
    ≡ 1 ∷ 1 ∷ 1 ∷ 2 ∷ 3 ∷ 1 ∷ 1 ∷ []
unfolding counts_after get ref_dec mark_done find replace remove ◌>>=◌
get_test = refl

-- A write leaves its task to the controller, with a reference to the data and one to the accelerator.
set_test :
    counts_after (set machine (ref_dec machine 4) 2048 512 (some (1 ∷ 2 ∷ 3 ∷ 4 ∷ [])))
    ≡ 1 ∷ 1 ∷ 1 ∷ 1 ∷ 2 ∷ 4 ∷ 1 ∷ 2 ∷ []
unfolding counts_after set ref_dec find replace remove ◌>>=◌
set_test = refl

-- The copy reads its source to NULL.
memcpy_test :
    memcpy machine (ref_dec machine 4) completes (λ p n. replicate n 0) 512 2048 1024 two_data
    ≡ fault
unfolding memcpy get ref_dec mark_done find replace remove ◌>>=◌
memcpy_test = refl

-- The controller gives the data at 2048 memory of the accelerator, and completes the task.
allocates : World → World
allocates w =
    let done = completes w in
    record done {
      cells =
          replace 2048
            (record {
              alloc_size = 200;
              ref_count = 2;
              name = [];
              body = datum (four_bytes 99 2224);
            })
            done.cells;
    }

-- The reference to the procedure is not dropped.
allocate_remote_test :
    counts_after (allocate_remote machine (ref_dec machine 4) allocates 2048 512)
    ≡ 1 ∷ 1 ∷ 2 ∷ 2 ∷ 3 ∷ 1 ∷ 1 ∷ []
unfolding counts_after allocate_remote ref_dec mark_done allocates find replace remove ◌>>=◌
allocate_remote_test = refl

-- The word before a buffer.
abbrev before : World → Ptr → Ptr
before w x = if x == 1200 then 1024 else if x == 2224 then 2048 else 0

-- A process that has the segment of 8192 bytes at 1000, with one thread in it. The system calls are not
-- made again.
abbrev kernel : Kernel
kernel = record {
  total_memory = 1048576;
  opens = λ name. false;
  file_size = λ name. 0;
  truncates = false;
  map_any = λ hint. none;
  map_at = λ there. none;
  process_id = 31;
  revision = 7;
  header = 0;
}

abbrev process : Process
process = record {
  vpipe = 1000;
  threads = 1;
  initialized = true;
  instance_uid = 0;
  available = 10000;
}

abbrev segment : Segment
segment = record {
  pipe = record { self = 1000; processes = 1; proc_map = 31 ∷ [] };
  shm_size = 8192;
  revision = some 7;
  last_uid = 1;
  cntrl_ready = true;
  throttle = two_data.throttle;
}

-- The data at 2048 is found by an address in its buffer, and by the buffer itself.
ref_offset_test :
    ref_offset before kernel none 2226 process segment two_data
    ≡ ok ((running (more process 1) segment, 2048), two_data)
unfolding ref_offset ptr_valid ref find ◌>>=◌
ref_offset_test = refl

ref_test :
    ref_offset before kernel none 2224 process segment two_data
    ≡ ok ((running (more process 2) segment, 2048), two_data)
unfolding ref_offset ptr_valid ref find ◌>>=◌
ref_test = refl
