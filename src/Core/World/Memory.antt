-- ===== src/Core/World/Memory.antt =====
-- Reads and writes of the objects of the segment, by address, and of the lists that hold them.
use arax_g_rpc.Prelude.{Bool, false, ◌||◌, List, [], ◌∷◌, Option, none, some, ◌==◌, if◌then◌else◌}
use arax_g_rpc.Prelude.Outcome.{ok, fault}
use arax_g_rpc.Core.World.{
  Ptr, Accel, Vaccel, Proc, Data, Task, Body, phys, virt, proc, datum, task, Object, Cell,
  ObjectType, phys_accel, virt_accel, proc_type, data_type, task_type, type_count, Repo, M, pure,
  ◌>>=◌, lift,
}

unfoldable pub find : Ptr → List Cell → Option Object
find p [] = none
find p (c ∷ cs) = if c.address == p then some c.object else find p cs

unfoldable pub replace : Ptr → Object → List Cell → List Cell
replace p o [] = []
replace p o (c ∷ cs) = if c.address == p then record c { object = o } ∷ cs else c ∷ replace p o cs

unfoldable pub remove : Ptr → List Cell → List Cell
remove p [] = []
remove p (c ∷ cs) = if c.address == p then cs else c ∷ remove p cs

-- `utils_list_del` of the node that `p` owns
unfoldable pub unlink : Ptr → List Ptr → List Ptr
unlink p [] = []
unlink p (q ∷ qs) = if q == p then qs else q ∷ unlink p qs

unfoldable pub has : Ptr → List Ptr → Bool
has p [] = false
has p (q ∷ qs) = (q == p) || has p qs

-- The object at an address. A read through NULL or of memory that was given back is a fault.
unfoldable pub load : Ptr → M Object
load p w = elim (find p w.cells) [ none ↦ fault | some o ↦ ok (o, w) ]

unfoldable pub store : Ptr → Object → M (Unit {0})
store p o w = elim (find p w.cells) [
  | none ↦ fault
  | some _ ↦ ok (tt, record w { cells = replace p o w.cells })
]

-- Memory given back: `arch_alloc_free`.
unfoldable pub free : Ptr → M (Unit {0})
free p w = elim (find p w.cells) [
  | none ↦ fault
  | some _ ↦ ok (tt, record w { cells = remove p w.cells })
]

unfoldable pub store_body : Ptr → Body → M (Unit {0})
unfolding load store
store_body p b = do o ← load p; store p (record o { body = b })

unfoldable pub as_phys : Body → M Accel
as_phys (phys a) = pure a
as_phys _ = lift fault

unfoldable pub as_virt : Body → M Vaccel
as_virt (virt v) = pure v
as_virt _ = lift fault

unfoldable pub as_proc : Body → M Proc
as_proc (proc p) = pure p
as_proc _ = lift fault

unfoldable pub as_data : Body → M Data
as_data (datum d) = pure d
as_data _ = lift fault

unfoldable pub as_task : Body → M Task
as_task (task t) = pure t
as_task _ = lift fault

-- The structure at an address, where the code has cast a pointer to it. An object of another kind is
-- a fault.
unfoldable pub load_phys : Ptr → M Accel
unfolding load as_phys
load_phys p = do o ← load p; as_phys o.body

unfoldable pub load_virt : Ptr → M Vaccel
unfolding load as_virt
load_virt p = do o ← load p; as_virt o.body

unfoldable pub load_proc : Ptr → M Proc
unfolding load as_proc
load_proc p = do o ← load p; as_proc o.body

unfoldable pub load_data : Ptr → M Data
unfolding load as_data
load_data p = do o ← load p; as_data o.body

unfoldable pub load_task : Ptr → M Task
unfolding load as_task
load_task p = do o ← load p; as_task o.body

-- `&(repo->repo[type].list)`, read and written
unfoldable pub repo_list : ObjectType → Repo → List Ptr
repo_list phys_accel r = r.accels
repo_list virt_accel r = r.vaccels
repo_list proc_type r = r.procs
repo_list data_type r = r.datas
repo_list task_type r = r.tasks
repo_list type_count r = []

unfoldable pub set_repo_list : ObjectType → List Ptr → Repo → Repo
set_repo_list phys_accel l r = record r { accels = l }
set_repo_list virt_accel l r = record r { vaccels = l }
set_repo_list proc_type l r = record r { procs = l }
set_repo_list data_type l r = record r { datas = l }
set_repo_list task_type l r = record r { tasks = l }
set_repo_list type_count l r = r
