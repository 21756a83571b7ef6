-- ===== src/Core/Release/Tests.antt =====
-- The last reference to a procedure, in a segment of 1000 bytes with one at 64.
use arax_g_rpc.Prelude.{◌+◌, ◌≡◌, refl, [], ◌∷◌, arith, replicate}
use arax_g_rpc.Prelude.Outcome.{ok}
use arax_g_rpc.Core.World.{Proc, proc, Object, World, Platform}
use arax_g_rpc.Core.World.Memory.{find, remove, unlink}
use arax_g_rpc.Core.Release.{ref_dec}
use arax_g_rpc.Core.Release.Last.{ref_dec-last}

abbrev machine : Platform
machine = record {
  allocate = λ cs n. 4096;
  accel_size = 200;
  vaccel_size = 4000;
  proc_size = 120;
  data_size = 150;
  task_size = 90;
}

abbrev nothing_runs : Proc
nothing_runs = record { functors = replicate 9 0; canrun = 0 }

abbrev old_proc : Object
old_proc = record { alloc_size = 120; ref_count = 1; name = []; body = proc nothing_runs }

abbrev one_proc : World
one_proc = record {
  cells = record { address = 64; object = old_proc } ∷ [];
  repo = record { accels = []; vaccels = []; procs = 64 ∷ []; datas = []; tasks = [] };
  throttle = record { available = 880; capacity = 1000 };
  orphan_vacs = [];
}

ref_dec-last_example :
    ref_dec machine 1 64 one_proc
    ≡ ok (
      0,
      record one_proc {
        cells = [];
        repo = record one_proc.repo { procs = [] };
        throttle = record one_proc.throttle { available = 880 + 120 };
      },
    )
unfolding find remove unlink
ref_dec-last_example =
    ref_dec-last machine 0 one_proc old_proc nothing_runs 64 refl refl refl (λ e. omega (arith, e))
      (omega arith) (omega arith)
