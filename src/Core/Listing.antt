-- ===== src/Core/Listing.antt =====
-- src/arch/shm/impl.c: the accelerators that a client sees, and how it acquires one.
pub mod Refs
pub mod Fits
pub mod Restored
pub mod Balance
pub mod Tests
use arax_g_rpc.Prelude.{
  ℕ, ◌+◌, Bool, true, false, ◌||◌, List, [], ◌∷◌, Option, none, some, ◌==◌, if◌then◌else◌,
}
use arax_g_rpc.Prelude.Outcome.{Outcome, ok, fault}
use arax_g_rpc.Core.World.{
  Ptr, AccelState, accel_failed, Body, phys, virt, Repo, World, Platform, M, pure, ◌>>=◌, ◌>>◌,
  lift, gets, modify,
}
use arax_g_rpc.Core.World.Memory.{load, load_phys, load_virt}
use arax_g_rpc.Core.Object.{ref_inc}
use arax_g_rpc.Core.Create.{vaccel_init, proc_init}
use arax_g_rpc.Core.Lookup.{find_proc}
use arax_g_rpc.Core.Release.{ref_dec, ref_dec_pre_locked}
use arax_g_rpc.Core.Accel
use arax_g_rpc.Core.Vaccel

-- `accel->type`, where the code has cast the owner of a node
pub type_at : Bool → Ptr → M ℕ
unfolding load_phys load_virt
type_at true p = do a ← load_phys p; pure a.type
type_at false p = do v ← load_virt p; pure v.type

-- The loop over the list: how many have the type, 0 for every one, and the array of those.
collect : (physical wanted : Bool) → ℕ → List Ptr → M (ℕ × List Ptr)
unfolding type_at ref_inc
collect physical wanted type [] = pure (0, [])
collect physical wanted type (p ∷ ps) = do
  t ← type_at physical p
  if type == 0 || t == type
      then (do
        if wanted then ref_inc p else pure tt
        rest ← collect physical wanted type ps
        pure (rest.0 + 1, if wanted then p ∷ rest.1 else []))
      else collect physical wanted type ps

-- An array up to its NULL, each reference dropped
drop_each : (Ptr → M ℕ) → List Ptr → M (Unit {0})
drop_each dec [] = pure tt
drop_each dec (p ∷ ps) = do _ ← dec p; drop_each dec ps

unfoldable pub listed : Bool → Repo → List Ptr
listed true r = r.accels
listed false r = r.vaccels

module _ (env : Platform) (fuel : ℕ) where
  unfoldable pub list_free : List Ptr → M (Unit {0})
  unfolding drop_each ref_dec
  list_free = drop_each (ref_dec env fuel)

  unfoldable pub list_free_pre_locked : List Ptr → M (Unit {0})
  unfolding drop_each ref_dec_pre_locked
  list_free_pre_locked = drop_each (ref_dec_pre_locked env fuel)

  -- `accels` is none where no array is wanted, else the array of an earlier call, empty for NULL.
  unfoldable pub list : ℕ → (physical : Bool) → (accels : Option (List Ptr)) → M (ℕ × List Ptr)
  unfolding collect listed
  list type physical none = do
    ps ← gets (λ w. listed physical w.repo)
    collect physical false type ps
  list type physical (some old) = do
    list_free_pre_locked old
    ps ← gets (λ w. listed physical w.repo)
    collect physical true type ps

-- `arax_accel_type`: both structures have the type at the same place.
unfoldable pub accel_type : Ptr → M ℕ
unfolding load
accel_type p = do
  o ← load p
  elim o.body [ phys a ↦ pure a.type | virt v ↦ pure v.type | _ ↦ lift fault ]

unfoldable pub stat : Ptr → M AccelState
unfolding load Accel.get_stat Vaccel.get_stat
stat p = do
  o ← load p
  elim o.body [ phys a ↦ Accel.get_stat p | virt v ↦ Vaccel.get_stat p | _ ↦ pure accel_failed ]

module _ (env : Platform) where
  -- The value returned, and the accelerator that the caller then has.
  unfoldable pub acquire_phys : Ptr → M (ℕ × Ptr)
  unfolding load vaccel_init
  acquire_phys p = do
    o ← load p
    elim o.body [
      | phys a ↦ do v ← vaccel_init env (b'F' ∷ b'I' ∷ b'L' ∷ b'L' ∷ []) a.type p; pure (1, v)
      | _ ↦ pure (0, p)
    ]

  unfoldable pub acquire_type : ℕ → M Ptr
  unfolding vaccel_init
  acquire_type type = vaccel_init env (b'F' ∷ b'I' ∷ b'L' ∷ b'L' ∷ []) type 0

  -- A procedure of that name is registered once; no reference is taken to one that is there.
  unfoldable pub proc_register : List ℕ → M Ptr
  unfolding find_proc proc_init
  proc_register name = do p ← find_proc name; if p == 0 then proc_init env name else pure p
