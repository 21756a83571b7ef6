-- ===== src/Core/Release.antt =====
-- The destructors of src/core, `arax_object_ref_dec` with them (arax_object.c, `dtor_table`), and
-- `arax_accel_release` of src/arch/shm/impl.c. A destructor drops references of its own, so
-- `ref_dec` runs on fuel: a task leads to data, data to an accelerator, a physical accelerator to the
-- virtual one of its frees.
pub mod Tests
pub mod Balance
pub mod Last
use arax_g_rpc.Prelude.{
  ℕ, zero, suc, ◌+◌, ◌*◌, Bool, true, false, not, ◌&&◌, List, [], ◌∷◌, Option, none, some, ◌==◌,
  if◌then◌else◌,
}
use arax_g_rpc.Prelude.Outcome.{Outcome, ok, abort, fault, no_fuel, arax_assert}
use arax_g_rpc.Core.World.{
  Ptr, ObjectType, Accel, Data, Task, Body, phys, virt, datum, gone, type_of, Object, World,
  Platform, M, pure, ◌>>=◌, ◌>>◌, lift, gets, modify, phys_accel, virt_accel, proc_type, data_type,
  task_type, type_count,
}
use arax_g_rpc.Core.World.Memory.{load, load_phys, load_data, load_task, store_body}
use arax_g_rpc.Core.Object.{ref_inc, ref_dec_with, ref_dec_pre_locked_with}
use arax_g_rpc.Core.Lookup.{find_proc}
use arax_g_rpc.Core.Data.{has_othr_remt}
use arax_g_rpc.Core.Vaccel
use arax_g_rpc.Core.Task

-- `arax_proc_get`: NULL where the procedure is not registered
unfoldable pub proc_get : List ℕ → M Ptr
unfolding find_proc ref_inc
proc_get name = do p ← find_proc name; if p == 0 then pure 0 else do ref_inc p; pure p

is_accel : ObjectType → Bool
is_accel phys_accel = true
is_accel virt_accel = true
is_accel _ = false

is_virt : ObjectType → Bool
is_virt virt_accel = true
is_virt _ = false

module _ (env : Platform) (dec : Ptr → M ℕ) where
  -- `arax_accel_release`, less the NULL that it leaves in the caller's variable
  unfoldable pub accel_release : Ptr → M (Unit {0})
  unfolding load is_accel
  accel_release p = do
    o ← load p
    if is_accel (type_of o.body) then (do _ ← dec p; pure tt) else lift abort

  -- Virtual accelerators still attached are reported, and nothing else: the assertion that follows the
  -- report is on a string, which is never NULL.
  dtor_accel : Ptr → M (Unit {0})
  unfolding load_phys store_body accel_release
  dtor_accel p = do
    a ← load_phys p
    accel_release a.free_vaq
    a' ← load_phys p
    store_body p (phys (record a' { free_vaq = 0 }))

  dec_all : List Ptr → M (Unit {0})
  dec_all [] = pure tt
  dec_all (p ∷ ps) = do _ ← dec p; dec_all ps

  dtor_task : Ptr → M (Unit {0})
  unfolding load_task dec_all
  dtor_task p = do
    t ← load_task p
    dec_all t.io
    if t.accel == 0 then pure tt else do _ ← dec t.accel; pure tt

  -- The task that frees the remote part of the data at `p`.
  free_remote : Ptr → Data → M (Unit {0})
  unfolding load_phys proc_get Task.issue
  free_remote p d = do
    proc ← proc_get (b'f' ∷ b'r' ∷ b'e' ∷ b'e' ∷ [])
    a ← load_phys d.phys
    _ ← Task.issue env dec a.free_vaq proc (some (p ∷ d.remote ∷ d.size ∷ d.phys ∷ [])) 32 [] []
    _ ← dec d.accel
    pure tt

  drop_accel : Data → M (Unit {0})
  unfolding load is_virt
  drop_accel d = if d.accel == 0 then pure tt else do
    o ← load d.accel
    lift (arax_assert (is_virt (type_of o.body)))
    _ ← dec d.accel
    pure tt

  dtor_data : Ptr → M (Unit {0})
  unfolding load_data store_body free_remote drop_accel
  dtor_data p = do
    d ← load_data p
    if not (d.remote == 0) && not (has_othr_remt d.flags)
        then (if d.phys == 0 then lift abort else free_remote p d)
        else drop_accel d
    store_body p gone

  -- `dtor_table`
  unfoldable pub dtor : ObjectType → Ptr → M (Unit {0})
  unfolding dtor_accel Vaccel.dtor dtor_data dtor_task
  dtor phys_accel p = dtor_accel p
  dtor virt_accel p = Vaccel.dtor p
  dtor proc_type p = pure tt
  dtor data_type p = dtor_data p
  dtor task_type p = dtor_task p
  dtor type_count p = lift fault

module _ (env : Platform) where
  -- The count left. At zero the object leaves its list, is destroyed, and its memory is given back.
  unfoldable pub ref_dec : ℕ → Ptr → M ℕ
  unfolding ref_dec_with dtor
  ref_dec zero p = lift no_fuel
  ref_dec (suc fuel) p = ref_dec_with (dtor env (ref_dec fuel)) p

  unfoldable pub ref_dec_pre_locked : ℕ → Ptr → M ℕ
  unfolding ref_dec_pre_locked_with dtor ref_dec
  ref_dec_pre_locked fuel p = ref_dec_pre_locked_with (dtor env (ref_dec fuel)) p

  -- `arax_proc_put`, `arax_task_free` and `arax_data_free` are `ref_dec` at the object.
  unfoldable pub proc_put : ℕ → Ptr → M ℕ
  unfolding ref_dec
  proc_put = ref_dec
