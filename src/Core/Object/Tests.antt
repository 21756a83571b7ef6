-- ===== src/Core/Object/Tests.antt =====
-- src/core/arax_object.c at concrete inputs: a segment of 1000 bytes with one procedure at 64.
use arax_g_rpc.Prelude.{◌-◌, ◌≡◌, refl, [], ◌∷◌, arith, replicate}
use arax_g_rpc.Prelude.Outcome.{ok}
use arax_g_rpc.Core.World.{proc, Object, World, Platform, pure, ◌>>◌}
use arax_g_rpc.Core.World.Memory.{find}
use arax_g_rpc.Core.Object.{register, ref_inc, ref_dec_with, valid_type}
use arax_g_rpc.Core.Object.Counts.{ref_dec-ref_inc}
use arax_g_rpc.Core.Object.Failed.{register-null}

abbrev copy_proc : Object
copy_proc = record {
  alloc_size = 120;
  ref_count = 2;
  name = b'c' ∷ b'p' ∷ [];
  body = proc (record { functors = replicate 9 0; canrun = 0 });
}

abbrev one_proc : World
one_proc = record {
  cells = record { address = 64; object = copy_proc } ∷ [];
  repo = record { accels = []; vaccels = []; procs = 64 ∷ []; datas = []; tasks = [] };
  throttle = record { available = 880; capacity = 1000 };
  orphan_vacs = [];
}

ref_dec-ref_inc_example :
    (do ref_inc 64; ref_dec_with (λ t p. pure tt) 64) one_proc ≡ ok (2, one_proc)
unfolding find valid_type
ref_dec-ref_inc_example =
    ref_dec-ref_inc (λ t p. pure tt) one_proc copy_proc 64 refl (λ e. omega (arith, e)) refl
      (omega arith) (omega arith)

-- An allocator that has no room left.
abbrev full : Platform
full = record {
  allocate = λ cs n. 0;
  accel_size = 200;
  vaccel_size = 4000;
  proc_size = 120;
  data_size = 150;
  task_size = 90;
}

register-null_example :
    register full [] 90 1 copy_proc.body one_proc
    ≡ ok (0, record one_proc { throttle = record one_proc.throttle { available = 880 - 90 } })
register-null_example =
    register-null full [] 90 1 copy_proc.body one_proc refl (omega arith) (omega arith)
      (omega arith)
