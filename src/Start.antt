-- ===== src/Start.antt =====
-- src/arch/shm/impl.c and parts of src/core/arax_pipe.c and arax_ptr.c: how the threads of a process
-- attach to the shared segment and leave it. The system calls are the parameter `Kernel`. A process that
-- GO_FAIL ends is `exited`; before the segment is mapped GO_FAIL reads through an address that is not,
-- a fault. The lists and conditions that `arax_pipe_init` sets up, and its allocator, are left out.
pub mod Nested
pub mod Once
pub mod Undo
pub mod Tests
use arax_g_rpc.Prelude.{
  ℕ, zero, suc, ◌+◌, ◌-◌, ◌/◌, ◌%◌, ◌^◌, Bool, true, false, not, ◌&&◌, ◌||◌, List, [], ◌∷◌, Option,
  none, some, ltb, leb, ◌==◌, if◌then◌else◌,
}
use arax_g_rpc.Prelude.Outcome.{Outcome, ok, abort, fault, blocked, ◌>>=◌, ◌>>◌, arax_assert}
use arax_g_rpc.AccelTypes.{codes}
use arax_g_rpc.Config.{File, get_str, get_bool, get_size}
use arax_g_rpc.Config.Text.{Str, string_in}
use arax_g_rpc.Config.Numbers.{ℤ, pos, negsuc}
use arax_g_rpc.Throttle
use arax_g_rpc.Throttle.{Throttle}
use arax_g_rpc.ProcMap.{Pipe, add_process, del_process, have_to_mmap, mark_unmap, mmap_address}

-- What the operating system answers, and the constants of the build: the address at which `mmap` puts
-- the segment for a hint, and for the address where the others have it; none is MAP_FAILED.
pub record Kernel : Type 0 where
  pub total_memory : ℕ
  pub opens : Str → Bool
  pub file_size : Str → ℕ
  pub truncates : Bool
  pub map_any : ℕ → Option ℕ
  pub map_at : ℕ → Option ℕ
  pub process_id : ℕ
  pub revision : ℕ
  pub header : ℕ

-- `arax_state`, without the file descriptor and the name of the file
pub record Process : Type 0 where
  pub vpipe : ℕ
  pub threads : ℕ
  pub initialized : Bool
  pub instance_uid : ℕ
  pub available : ℕ

-- The fields of `arax_pipe_s` that the calls here use; `revision` is `sha`, none while it is not written.
pub record Segment : Type 0 where
  pub pipe : Pipe
  pub shm_size : ℕ
  pub revision : Option ℕ
  pub last_uid : ℕ
  pub cntrl_ready : Bool
  pub throttle : Throttle

pub data Attached : Type 0 where
  exited : Attached
  running : Process → Segment → Attached

-- What the configuration says of the segment.
pub record Settings : Type 0 where
  pub shm_file : Str
  pub shm_size : ℕ
  pub shm_off : ℕ
  pub shm_trunc : Bool
  pub enforce_version : Bool

unfoldable pub size_of : ℤ → ℕ
size_of (pos n) = n
size_of (negsuc n) = 0

unfoldable pub flag_of : ℤ → Bool
flag_of (pos zero) = false
flag_of z = true

-- The keys of the configuration, and what `shm_ivshmem` makes of them; none is GO_FAIL.
unfoldable pub settings : Kernel → File → Outcome (Option Settings)
unfolding get_str get_size get_bool string_in size_of flag_of
settings k file = do
  name ← get_str file (codes "shm_file") 1024 none
  let quarter = pos (k.total_memory / 4)
  size ← get_size file (codes "shm_size") quarter
  off ← get_size file (codes "shm_off") (pos 0)
  trunc ← get_bool file (codes "shm_trunc") (pos 1)
  ivshmem ← get_bool file (codes "shm_ivshmem") (pos 0)
  enforce ← get_bool file (codes "enforce_version") (pos 1)
  let bytes = size_of size.stored
  let device = flag_of ivshmem.stored
  elim name.stored [
    | none ↦ ok none
    | some buffer ↦ elim (string_in buffer) [
      | none ↦ fault
      | some shm_file ↦
          if (bytes == 0) || ltb k.total_memory bytes
          then ok none
          else ok (
              some (record {
                shm_file = shm_file;
                shm_size = bytes;
                shm_off =
                    if device then (size_of off.stored + 4096) % 2 ^ 64 else size_of off.stored;
                shm_trunc = if device then false else flag_of trunc.stored;
                enforce_version = flag_of enforce.stored;
              }))
    ]
  ]

-- Whether the file is open and has its size.
unfoldable pub opened : Kernel → Settings → Bool
opened k st =
    k.opens st.shm_file
    && (if st.shm_trunc && not (k.file_size st.shm_file == st.shm_size) then k.truncates else true)

-- The test of a process that is not the first, after the first has written its revision.
unfoldable pub same_revision : Kernel → Bool → Segment → Option ℕ → Outcome (Option Segment)
same_revision k enforce s none = blocked
same_revision k enforce s (some r) =
    if (r == k.revision) || not enforce then ok (some s) else ok none

-- What the first process writes.
abbrev pub set_up : Kernel → ℕ → Segment → Throttle → Segment
set_up k size s t = record s { shm_size = size; revision = some k.revision; throttle = t }

-- `arax_pipe_init`: none is NULL, for a segment of another revision.
unfoldable pub pipe_init : Kernel → ℕ → Bool → Segment → Outcome (Option Segment)
unfolding add_process Throttle.init same_revision
pipe_init k size enforce s =
    let added = add_process s.pipe in
    let joined = record s { pipe = added.0 } in
    let left = (size + 2 ^ 64 - k.header) % 2 ^ 64 in
    if added.1 == 0
    then (do t ← Throttle.init left left; ok (some (set_up k size joined t)))
    else same_revision k enforce joined s.revision

-- The end of `_arax_init` for the first thread. NULL from `arax_pipe_init` fails the assertion of
-- `arax_pipe_get_available_size`, which is called before the test for NULL.
unfoldable pub ready : ℕ → Process → Option Segment → Outcome Attached
ready v p none = abort
ready v p (some s) = ok (
    running
      (record p {
        vpipe = v;
        initialized = true;
        instance_uid = s.last_uid;
        available = s.throttle.available;
      })
      (record s { last_uid = (s.last_uid + 1) % 2 ^ 64 }))

-- The address at which the segment is mapped in the end; none is MAP_FAILED.
unfoldable pub placed : Kernel → ℕ → ℕ → Bool → Option ℕ
placed k here shm_addr must =
    if must then (if shm_addr == here then some here else k.map_at shm_addr) else some shm_addr

unfoldable pub join : Kernel → Settings → Process → Segment → ℕ → Option ℕ → Outcome Attached
unfolding pipe_init ready
join k st p s shm_addr none = fault
join k st p s shm_addr (some v) =
    if v == shm_addr
    then (do o ← pipe_init k st.shm_size st.enforce_version s; ready v p o)
    else ok exited

unfoldable pub attach_at : Kernel → Settings → Process → Segment → Option ℕ → Outcome Attached
unfolding mmap_address have_to_mmap placed join
attach_at k st p s none = fault
attach_at k st p s (some here) = if here == 0 then fault else do
  let a = mmap_address s.pipe here
  m ← have_to_mmap a.0 k.process_id
  join k st p (record s { pipe = m.0 }) a.1 (placed k here a.1 m.1)

unfoldable pub attach : Kernel → Settings → Process → Segment → Outcome Attached
unfolding attach_at
attach k st p s = attach_at k st p s (k.map_any p.vpipe)

-- The wait for the controller.
unfoldable pub good : Bool → Process → Segment → Outcome Attached
good wait_controller p s =
    if wait_controller && not s.cntrl_ready then blocked else ok (running p s)

unfoldable pub configured : Kernel → Process → Segment → Option Settings → Outcome Attached
unfolding opened attach
configured k p s none = fault
configured k p s (some st) = if opened k st then attach k st p s else fault

unfoldable pub first : Kernel → File → Process → Segment → Outcome Attached
unfolding settings configured
first k file p s = do st ← settings k file; configured k p s st

unfoldable pub wait_good : Bool → Attached → Outcome Attached
unfolding good
wait_good wait_controller exited = ok exited
wait_good wait_controller (running p s) = good wait_controller p s

-- `_arax_init`
unfoldable pub init : Kernel → File → Bool → Process → Segment → Outcome Attached
unfolding first good wait_good
init k file wait_controller p s =
    let counted = record p { threads = (p.threads + 1) % 2 ^ 64 } in
    if p.threads == 0
    then (do a ← first k file counted s; wait_good wait_controller a)
    else if p.initialized
    then good wait_controller counted s
    else blocked

-- `arax_controller_init_done`
unfoldable pub controller_init_done : Segment → Segment
controller_init_done s = record s { cntrl_ready = true }

-- `arax_pipe_exit`: whether this was the last process.
unfoldable pub pipe_exit : Segment → Segment × Bool
unfolding del_process
pipe_exit s = let d = del_process s.pipe in (record s { pipe = d.0 }, d.1 == 1)

-- `arax_exit`, with whether the segment was removed.
unfoldable pub exit : Kernel → Process → Segment → Outcome (Attached × Bool)
unfolding pipe_exit mark_unmap
exit k p s =
    let counted = record p { threads = (p.threads + 2 ^ 64 - 1) % 2 ^ 64 } in
    let e = pipe_exit s in
    if p.vpipe == 0
    then ok (running p s, false)
    else if p.threads == 1
    then (do
      arax_assert (if e.1 then s.throttle.available == p.available else true)
      pipe ← mark_unmap (e.0).pipe k.process_id
      ok (running (record counted { vpipe = 0 }) (record s { pipe = pipe }), e.1))
    else ok (running counted s, false)

unfoldable pub inside : ℕ → Attached → Attached × Bool
inside ptr exited = (exited, false)
inside ptr (running p s) =
    (running p s, leb p.vpipe ptr && ltb ptr ((p.vpipe + s.shm_size) % 2 ^ 64))

-- `arax_ptr_valid`, which attaches one thread more.
unfoldable pub ptr_valid : Kernel → File → ℕ → Process → Segment → Outcome (Attached × Bool)
unfolding init inside
ptr_valid k file ptr p s = do a ← init k file true p s; ok (inside ptr a)
