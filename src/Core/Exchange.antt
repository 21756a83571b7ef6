-- ===== src/Core/Exchange.antt =====
-- src/core/arax_data.c: the calls that move the bytes of data between an application and an
-- accelerator, each a task for the controller, and the search for the data of an address.
-- `dec` stands for `arax_object_ref_dec`.
pub mod Balance
pub mod Owner
pub mod Tests
use arax_g_rpc.Prelude.{
  ℕ, ◌+◌, ◌*◌, ◌%◌, ◌/◌, Bool, true, false, not, ◌&&◌, ◌||◌, List, [], ◌∷◌, Option, none, some,
  ◌==◌, if◌then◌else◌,
}
use arax_g_rpc.Prelude.Outcome.{Outcome, ok, fault, arax_assert}
use arax_g_rpc.AccelTypes.{cpu}
use arax_g_rpc.Core.World.{
  Ptr, TaskState, task_completed, type_of, World, Platform, M, pure, ◌>>=◌, ◌>>◌, lift, gets,
  modify,
}
use arax_g_rpc.Core.World.Memory.{load, load_data, load_virt}
use arax_g_rpc.Core.Object.{ref_inc}
use arax_g_rpc.Core.Accel
use arax_g_rpc.Core.Data.{size, deref, put_accel, holder}
use arax_g_rpc.Core.Task
use arax_g_rpc.Config.{File}
use arax_g_rpc.Start.{Kernel, Process, Segment, Attached, exited, running, ptr_valid}
use arax_g_rpc.Core.Release.{proc_get}

-- The names of the procedures: `__func__` in the first two
abbrev pub get_name : List ℕ
get_name =
    b'a' ∷ b'r' ∷ b'a' ∷ b'x' ∷ b'_' ∷ b'd' ∷ b'a' ∷ b't' ∷ b'a' ∷ b'_' ∷ b'g' ∷ b'e' ∷ b't' ∷ []

abbrev pub set_name : List ℕ
set_name =
    b'a' ∷ b'r' ∷ b'a' ∷ b'x' ∷ b'_' ∷ b'd' ∷ b'a' ∷ b't' ∷ b'a' ∷ b'_' ∷ b's' ∷ b'e' ∷ b't' ∷ []

abbrev pub alloc_name : List ℕ
alloc_name = b'a' ∷ b'l' ∷ b'l' ∷ b'o' ∷ b'c' ∷ b'_' ∷ b'd' ∷ b'a' ∷ b't' ∷ b'a' ∷ []

is_completed : TaskState → Bool
is_completed task_completed = true
is_completed _ = false

-- `memcpy(user, host, size)` reads or writes through NULL where there is something to copy.
copy_to : Ptr → ℕ → Outcome (Unit {0})
copy_to user size = if user == 0 && not (size == 0) then fault else ok tt

-- `arax_assert(arax_task_wait(task) == task_completed)`
wait_completed : Ptr → M (Unit {0})
unfolding Task.wait is_completed
wait_completed task = do s ← Task.wait task; lift (arax_assert (is_completed s))

module _ (env : Platform) (dec : Ptr → M ℕ) where
  -- `arax_data_get` up to its wait: the procedure and the task.
  unfoldable pub get_issue : Ptr → M (Ptr × Ptr)
  unfolding proc_get load_data size Task.issue
  get_issue p = do
    proc ← proc_get get_name
    d ← load_data p
    lift (arax_assert (not (d.accel == 0)))
    n ← size p
    task ← Task.issue env dec d.accel proc none n [] (p ∷ [])
    pure (proc, task)

  -- `arax_data_get` from its wait on: the bytes that it leaves at `user`.
  unfoldable pub get_collect : Ptr → (user proc task : Ptr) → M (List ℕ)
  unfolding wait_completed size Task.host_data copy_to
  get_collect p user proc task = do
    wait_completed task
    n ← size p
    host ← Task.host_data task n
    lift (copy_to user n)
    _ ← dec task
    _ ← dec proc
    pure host

  -- `served` is what the controller and the other threads do to the segment while the call waits.
  unfoldable pub get : (World → World) → Ptr → (user : Ptr) → M (List ℕ)
  unfolding get_issue get_collect
  get served p user = do issued ← get_issue p; modify served; get_collect p user issued.0 issued.1

  -- `user` is what stands at the pointer given, nothing where it is NULL.
  unfoldable pub set : Ptr → Ptr → (user : Option (List ℕ)) → M (Unit {0})
  unfolding proc_get load_data ref_inc put_accel size Task.issue
  set p accel user = do
    proc ← proc_get set_name
    d ← load_data p
    lift (arax_assert (d.accel == 0 || d.accel == accel))
    if d.accel == 0 then ref_inc accel else pure tt
    put_accel p accel
    n ← size p
    _ ← Task.issue env dec accel proc user n [] (p ∷ [])
    _ ← dec proc
    pure tt

  -- `bytes` is what stands at an address of the segment, for a number of bytes.
  unfoldable pub memcpy :
      (World → World) → (Ptr → ℕ → List ℕ) → (accel dst src : Ptr) → M (Unit {0})
  unfolding load_data size deref get set
  memcpy served bytes accel dst src = do
    _ ← load_data dst
    _ ← load_data src
    if dst == src then pure tt else do
      n ← size dst
      m ← size src
      lift (arax_assert (n == m))
      _ ← get served src 0
      buffer ← deref src
      set dst accel (some (bytes buffer n))

  -- `arax_data_allocate_remote` up to its wait: the task, none where there is nothing to do.
  unfoldable pub allocate_issue : Ptr → Ptr → M (Option Ptr)
  unfolding load_data load_virt ref_inc put_accel proc_get Task.issue
  allocate_issue p accel = do
    d ← load_data p
    v ← load_virt accel
    if v.type == cpu
        then pure none
        else if not (d.remote == 0)
        then (do lift (arax_assert (not (d.accel == 0))); pure none)
        else (do
          if accel == 0 then (do ref_inc accel; put_accel p accel) else pure tt
          proc ← proc_get alloc_name
          task ← Task.issue env dec accel proc none 0 [] (p ∷ [])
          pure (some task))

  -- `arax_data_allocate_remote` from its wait on
  unfoldable pub allocate_collect : Ptr → Ptr → Ptr → M (Unit {0})
  unfolding wait_completed load_data load_virt size Accel.size_dec
  allocate_collect p accel task = do
    wait_completed task
    _ ← dec task
    d ← load_data p
    lift (arax_assert (not (d.remote == 0)))
    lift (arax_assert (d.accel == accel))
    v ← load_virt accel
    n ← size p
    Accel.size_dec v.phys n

  unfoldable pub allocate_remote : (World → World) → Ptr → Ptr → M (Unit {0})
  unfolding allocate_issue allocate_collect
  allocate_remote served p accel = do
    issued ← allocate_issue p accel
    elim issued [ none ↦ pure tt | some task ↦ do modify served; allocate_collect p accel task ]

-- `arax_data_ref` and `arax_data_ref_offset`: `owner` reads the word before a buffer. Each address is
-- tested with `arax_ptr_valid`, which attaches one thread more, so that the process of the caller and
-- the fields of `arax_pipe_s` that Start models are passed on. A process that ends gives NULL.
module _ (owner : World → Ptr → Ptr) (k : Kernel) (file : File) where
  unfoldable pub ref : Ptr → Process → Segment → M (Attached × Ptr)
  unfolding ptr_valid load Task.is_data
  ref buffer p s = do
    lift (arax_assert (not (buffer == 0)))
    o ← gets (λ w. owner w buffer)
    if o == 0 then pure (running p s, 0) else do
      v ← lift (ptr_valid k file o p s)
      if v.1
          then (do d ← load o; pure (v.0, if Task.is_data (type_of d.body) then o else 0))
          else pure (v.0, 0)

  -- The search of the repository, where the process runs on.
  search_datas : Ptr → Attached → M (Attached × Ptr)
  unfolding holder
  search_datas x exited = pure (exited, 0)
  search_datas x (running p s) = do
    ps ← gets (λ w. w.repo.datas)
    d ← holder ps x
    pure (running p s, d)

  unfoldable pub ref_offset : Ptr → Process → Segment → M (Attached × Ptr)
  unfolding ptr_valid ref search_datas
  ref_offset x p s = do
    lift (arax_assert (not (x == 0)))
    v ← lift (ptr_valid k file x p s)
    elim v.0 [
      | exited ↦ pure (exited, 0)
      | running p' s' ↦ do
        lift (arax_assert v.1)
        r ← ref x p' s'
        if not (r.1 == 0) then pure r else search_datas x r.0
    ]
