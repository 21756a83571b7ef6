-- ===== src/Core/World.antt =====
-- The shared segment of src/core: the objects (arax_object.h, arax_accel.h, arax_vaccel.h, arax_proc.h,
-- arax_data.h, arax_task.h), the repository lists and the parts of `arax_pipe_s` that the calls on
-- objects change. An address is a number, NULL is 0. A list of nodes is the sequence of their owners,
-- as NodeList proves; the calls here run one at a time, so the locks are free when they are taken.
pub mod Memory
pub mod Keeps
pub mod Balance
use arax_g_rpc.Prelude.{ℕ, ◌^◌, Bool, List, [], ◌∷◌, ◌==◌, if◌then◌else◌}
use arax_g_rpc.Prelude.Outcome
use arax_g_rpc.Prelude.Outcome.{Outcome, ok, fault}
use arax_g_rpc.Queue.{Queue}
use arax_g_rpc.Throttle.{Throttle}

abbrev pub Ptr : Type 0
Ptr = ℕ

-- `arax_object_type_e`
pub data ObjectType : Type 0 where
  phys_accel virt_accel proc_type data_type task_type type_count : ObjectType

-- `arax_accel_state_e`, `arax_accel_ordering_e` and `arax_task_state_e`
pub data AccelState : Type 0 where
  accel_failed accel_idle accel_busy : AccelState

pub data Ordering : Type 0 where
  sequential parallel : Ordering

pub data TaskState : Type 0 where
  task_failed task_issued task_completed : TaskState

-- `struct arax_accel_s` behind its object header
pub record Accel : Type 0 where
  pub type : ℕ
  pub state : AccelState
  pub vaccels : List Ptr
  pub tasks : ℕ
  pub revision : ℕ
  pub throttle : Throttle
  pub free_vaq : Ptr

-- `struct arax_vaccel_s`
pub record Vaccel : Type 0 where
  pub type : ℕ
  pub ordering : Ordering
  pub cid : ℕ
  pub priority : ℕ
  pub phys : Ptr
  pub meta : Ptr
  pub queue : Queue

-- `arax_proc_s`: the functors by accelerator type, and the bits of `canrun`, lowest first.
pub record Proc : Type 0 where
  pub functors : List Ptr
  pub canrun : ℕ

-- `struct arax_data_s`
pub record Data : Type 0 where
  pub remote : Ptr
  pub accel_meta : Ptr
  pub accel : Ptr
  pub size : ℕ
  pub align : ℕ
  pub flags : ℕ
  pub buffer : Ptr
  pub phys : Ptr

-- `arax_task_msg_s`: `host` is the host data behind the `io` array, `done` the completion.
pub record Task : Type 0 where
  pub accel : Ptr
  pub proc : Ptr
  pub host_size : ℕ
  pub in_count : ℕ
  pub out_count : ℕ
  pub state : TaskState
  pub done : Bool
  pub io : List Ptr
  pub host : List ℕ

-- What stands behind an object header. `gone` is data whose destructor has run.
pub data Body : Type 0 where
  phys : Accel → Body
  virt : Vaccel → Body
  proc : Proc → Body
  datum : Data → Body
  task : Task → Body
  gone : Body

abbrev pub type_of : Body → ObjectType
type_of (phys a) = phys_accel
type_of (virt v) = virt_accel
type_of (proc p) = proc_type
type_of (datum d) = data_type
type_of (task t) = task_type
type_of gone = type_count

-- `arax_object_s`: `ref_count` is the 32-bit pattern of an `int`.
pub record Object : Type 0 where
  pub alloc_size : ℕ
  pub ref_count : ℕ
  pub name : List ℕ
  pub body : Body

-- An allocation of the segment.
pub record Cell : Type 0 where
  pub address : Ptr
  pub object : Object

-- The `repo` lists of `arax_object_repo_s`, by type.
pub record Repo : Type 0 where
  pub accels : List Ptr
  pub vaccels : List Ptr
  pub procs : List Ptr
  pub datas : List Ptr
  pub tasks : List Ptr

-- The segment: what `arax_pipe_s` holds of it and what the allocator has handed out.
pub record World : Type 0 where
  pub cells : List Cell
  pub repo : Repo
  pub throttle : Throttle
  pub orphan_vacs : List Ptr

-- What the model takes from outside: the allocator of the segment (3rd-party mspaces) as a function of
-- the addresses in use and the size, and the sizes of the structures on the machine.
pub record Platform : Type 0 where
  pub allocate : List Cell → ℕ → Ptr
  pub accel_size : ℕ
  pub vaccel_size : ℕ
  pub proc_size : ℕ
  pub data_size : ℕ
  pub task_size : ℕ

-- A call: the result and the segment left, unless it does not return.
abbrev pub M : Type 0 → Type 0
M A = World → Outcome (A × World)

pub pure : {A : Type 0} → A → M A
pure a w = ok (a, w)

-- A computation that touches no memory.
pub lift : {A : Type 0} → Outcome A → M A
lift o w = Outcome.◌>>=◌ o (λ a. ok (a, w))

pub gets : {A : Type 0} → (World → A) → M A
gets f w = ok (f w, w)

pub modify : (World → World) → M (Unit {0})
modify f w = ok (tt, f w)

-- To unfold this is to unfold `pure`, `lift`, `gets` and `modify` too.
infixl 5 ◌>>=◌ ◌>>◌
unfoldable pub ◌>>=◌ : {A B : Type 0} → M A → (A → M B) → M B
unfolding pure lift gets modify
◌>>=◌ m f w = Outcome.◌>>=◌ (m w) (λ (a, w'). f a w')

abbrev pub ◌>>◌ : {B : Type 0} → M (Unit {0}) → M B → M B
m >> k = m >>= λ _. k
