-- ===== src/Core/Data.antt =====
-- src/core/arax_data.c: where a data object lives. `dec` stands for `arax_object_ref_dec`.
pub mod Balance
use arax_g_rpc.Prelude.{
  ℕ, ◌+◌, ◌-◌, ◌*◌, ◌/◌, ◌%◌, Bool, true, false, not, ◌&&◌, ◌||◌, List, [], ◌∷◌, ltb, leb, ◌==◌,
  if◌then◌else◌,
}
use arax_g_rpc.Prelude.Outcome.{Outcome, ok, abort, arax_assert}
use arax_g_rpc.AccelTypes.{cpu}
use arax_g_rpc.Core.World.{
  Ptr, ObjectType, Data, Body, phys, virt, datum, type_of, Object, World, M, pure, ◌>>=◌, ◌>>◌,
  lift, gets, modify, virt_accel, data_type,
}
use arax_g_rpc.Core.World.Memory.{load, load_virt, load_data, store_body}
use arax_g_rpc.Core.Object.{ref_inc}

-- OTHR_REMT of `arax_data_flags_e`, and whether a word has it
abbrev pub othr_remt : ℕ
othr_remt = 4

abbrev pub has_othr_remt : ℕ → Bool
has_othr_remt flags = flags / 4 % 2 == 1

-- `flags | OTHR_REMT`
abbrev pub with_othr_remt : ℕ → ℕ
with_othr_remt flags = if has_othr_remt flags then flags else flags + othr_remt

unfoldable pub size : Ptr → M ℕ
unfolding load_data
size p = do d ← load_data p; pure d.size

unfoldable pub deref : Ptr → M Ptr
unfolding load_data
deref p = do d ← load_data p; pure d.buffer

unfoldable pub has_remote : Ptr → M Bool
unfolding load_data
has_remote p = do d ← load_data p; pure (not (d.remote == 0))

-- `(flags & OTHR_REMT) | where`
unfoldable pub modified : Ptr → ℕ → M (Unit {0})
unfolding load_data store_body
modified p place = do
  d ← load_data p
  store_body p
      (datum (record d { flags = if has_othr_remt d.flags then with_othr_remt place else place }))

-- Every value of the two bits of ALL_SYNC is one of the four cases.
unfoldable pub check_flags : Ptr → M (Unit {0})
unfolding load_data
check_flags p = do
  d ← load_data p
  let sync = d.flags % 4
  if sync == 0 || sync == 1 || sync == 2 || sync == 3 then pure tt else lift abort

-- `data->accel = accel`
unfoldable pub put_accel : Ptr → Ptr → M (Unit {0})
unfolding load_data store_body
put_accel p accel = do d ← load_data p; store_body p (datum (record d { accel = accel }))

same_phys : Ptr → Ptr → M Bool
unfolding load_virt
same_phys a b = do v ← load_virt a; w ← load_virt b; pure (v.phys == w.phys)

is_virt : ObjectType → Bool
is_virt virt_accel = true
is_virt _ = false

module _ (dec : Ptr → M ℕ) where
  -- From one accelerator to another: both virtual, on one physical accelerator, or an abort.
  move_accel : Ptr → Ptr → Ptr → M (Unit {0})
  unfolding load put_accel same_phys is_virt ref_inc
  move_accel p old accel = do
    from ← load old
    to ← load accel
    if is_virt (type_of from.body) && is_virt (type_of to.body)
        then (do
          same ← same_phys old accel
          if same then (do _ ← dec old; ref_inc accel; put_accel p accel) else lift abort)
        else lift abort

  unfoldable pub migrate_accel : Ptr → Ptr → M (Unit {0})
  unfolding load_data put_accel move_accel ref_inc
  migrate_accel p accel = do
    lift (arax_assert (not (accel == 0)))
    d ← load_data p
    if d.accel == accel
        then pure tt
        else if d.accel == 0
        then (do lift (arax_assert (d.remote == 0)); ref_inc accel; put_accel p accel)
        else move_accel p d.accel accel

  unfoldable pub arg_init : Ptr → Ptr → M (Unit {0})
  unfolding migrate_accel
  arg_init p accel = do lift (arax_assert (not (accel == 0))); migrate_accel p accel

  unfoldable pub input_init : Ptr → Ptr → M (Unit {0})
  unfolding migrate_accel ref_inc
  input_init p accel = do lift (arax_assert (not (accel == 0))); ref_inc p; migrate_accel p accel

  unfoldable pub output_init : Ptr → Ptr → M (Unit {0})
  unfolding migrate_accel ref_inc
  output_init p accel = do lift (arax_assert (not (accel == 0))); ref_inc p; migrate_accel p accel

unfoldable pub set_accel : Ptr → Ptr → M (Unit {0})
unfolding load_data put_accel ref_inc
set_accel p accel = do
  d ← load_data p
  if d.accel == accel then pure tt else do put_accel p accel; ref_inc accel

unfoldable pub set_remote : Ptr → Ptr → Ptr → M (Unit {0})
unfolding load_data load_virt store_body ref_inc
set_remote p accel remt = do
  v ← load_virt accel
  lift (arax_assert (not (v.type == cpu)))
  d ← load_data p
  lift (arax_assert (d.accel == 0))
  lift (arax_assert (d.remote == 0))
  ref_inc accel
  d' ← load_data p
  store_body p (datum (record d' { accel = accel; remote = remt; flags = with_othr_remt d'.flags }))

-- The first data of a list whose buffer holds the address strictly inside.
unfoldable pub holder : List Ptr → Ptr → M Ptr
unfolding load_data
holder [] x = pure 0
holder (p ∷ ps) x = do
  d ← load_data p
  if ltb d.buffer x && ltb x (d.buffer + d.size) then pure p else holder ps x
