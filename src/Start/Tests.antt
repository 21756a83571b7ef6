-- ===== src/Start/Tests.antt =====
-- A process that attaches to a segment and leaves it, at concrete inputs (src/arch/shm/impl.c).
use arax_g_rpc.Prelude.{
  ℕ, ◌≡◌, ◌==◌, refl, Bool, true, false, List, [], ◌∷◌, none, some, replicate, arith,
}
use arax_g_rpc.Prelude.Outcome.{Outcome, ok, blocked, ◌>>=◌}
use arax_g_rpc.AccelTypes.{codes}
use arax_g_rpc.Config.{File}
use arax_g_rpc.Config.Lines.{print}
use arax_g_rpc.Config.Text.{is_space}
use arax_g_rpc.ProcMap.Mapped.{count}
use arax_g_rpc.Start.{Kernel, Process, Segment, Attached, running, init, exit, ptr_valid}
use arax_g_rpc.Start.Nested.{Call, enter, leave, run, after, Stay, run_nested}
use arax_g_rpc.Start.Undo.{exit-init}

abbrev file : File
file = some (
    print (
      record { key = codes "shm_file"; text = codes "arax" }
      ∷ record { key = codes "shm_size"; text = codes "65536" }
      ∷ []))

abbrev kernel : Kernel
kernel = record {
  total_memory = 1048576;
  opens = λ name. true;
  file_size = λ name. 65536;
  truncates = true;
  map_any = λ hint. some hint;
  map_at = λ there. some there;
  process_id = 31;
  revision = 7;
  header = 2048;
}

abbrev process : Process
process = record { vpipe = 8192; threads = 0; initialized = false; instance_uid = 0; available = 0 }

abbrev segment : Segment
segment = record {
  pipe = record { self = 0; processes = 0; proc_map = replicate 16 0 };
  shm_size = 0;
  revision = none;
  last_uid = 5;
  cntrl_ready = true;
  throttle = record { available = 0; capacity = 0 };
}

-- The process and the segment after the first `arax_init`.
attached :
    (p : Process) × (s : Segment) × (init kernel file true process segment ≡ ok (running p s))
unfolding init is_space
attached = (_, _, refl)

exit-init_example :
    (p : Process) × (s : Segment) × (exit kernel attached.0 attached.1
      ≡ ok (running p s, (segment.pipe).processes == 0))
    × (p.vpipe ≡ 0)
    × (p.threads ≡ 0)
    × ((s.pipe).processes ≡ (segment.pipe).processes)
unfolding count
exit-init_example =
    exit-init kernel file true process segment refl (λ e. omega (arith, e)) (omega arith)
      (omega arith) attached.2

abbrev calls : List Call
calls = enter true ∷ leave ∷ enter false ∷ []

run_nested_example :
    run kernel file calls attached.0 attached.1
    ≡ ok (running (record (attached.0) { threads = after (attached.0).threads calls }) attached.1)
unfolding attached Stay
run_nested_example =
    run_nested kernel file calls attached.0 attached.1 refl (λ e. omega (arith, e)) refl
      (omega arith) (omega arith) (omega arith, (omega arith, (omega arith, tt)))

-- A pointer that is tested counts as one thread more, which no `arax_exit` matches.
threads_of : Outcome (Attached × Bool) → ℕ
threads_of (ok (running p s, b)) = p.threads
threads_of o = 0

ptr_valid_test : threads_of (ptr_valid kernel file 9000 attached.0 attached.1) ≡ 2
unfolding attached ptr_valid threads_of
ptr_valid_test = refl

-- `arax_exit` before any `arax_init` is not told from one that matches, and then no thread can attach.
early_exit : Outcome Attached
unfolding exit init
early_exit = do r ← exit kernel process segment; again r.0
  where
    again : Attached → Outcome Attached
    again (running p s) = init kernel file true p s
    again a = ok a

early_exit_test : early_exit ≡ blocked
unfolding early_exit
early_exit_test = refl
