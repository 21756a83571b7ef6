-- ===== src/Core/System/Tests.antt =====
-- A run of a fresh segment: a procedure is registered and a second reference to it taken.
use arax_g_rpc.Prelude.{◌+◌, ◌*◌, ◌≡◌, refl, [], ◌∷◌, arith, length}
use arax_g_rpc.Prelude.Outcome.{ok}
use arax_g_rpc.Core.World.{World, Platform, ◌>>=◌}
use arax_g_rpc.Core.World.Balance.{total}
use arax_g_rpc.Core.World.Memory.{find}
use arax_g_rpc.Core.Object.{ref_inc}
use arax_g_rpc.Core.Create.{proc_init}
use arax_g_rpc.Core.Object.Balance.{Serves}
use arax_g_rpc.Core.System.{Call, new_proc, ref, perform, Reach, start, later, fresh}
use arax_g_rpc.Core.System.Leaks.{no_leak}

-- Each object behind the last.
abbrev bump : Platform
bump = record {
  allocate = λ cs n. 64 + 4096 * length cs;
  accel_size = 200;
  vaccel_size = 4000;
  proc_size = 120;
  data_size = 150;
  task_size = 90;
}

bump-Serves : Serves bump
bump-Serves = record { not_null = λ cs n e. omega (arith, e) }

abbrev registered : Call
registered = new_proc (b'c' ∷ b'p' ∷ [])

abbrev after_two : World
after_two = elim (perform bump 4 registered (fresh 1000)) [
  | ok (t, w) ↦ elim (perform bump 4 (ref 64) w) [ ok (t', w') ↦ w' | _ ↦ w ]
  | _ ↦ fresh 1000
]

two-Reach : Reach bump 4 (fresh 1000) after_two
unfolding perform ◌>>=◌ proc_init ref_inc find
two-Reach = later (later start registered refl) (ref 64) refl

no_leak_example :
    (after_two.throttle.available + total after_two.cells ≡ 1000)
    × (after_two.cells ≡ [] → after_two.throttle.available ≡ (fresh 1000).throttle.available)
no_leak_example = no_leak 1000 4 bump (omega arith) bump-Serves two-Reach
