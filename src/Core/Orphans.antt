-- ===== src/Core/Orphans.antt =====
-- src/core/arax_pipe.c: the virtual accelerators that no physical accelerator serves yet.
-- The callers wake sleepers of `orphan_cond` after a change; here a call runs alone.
pub mod Balance
use arax_g_rpc.Prelude.{
  ℕ, Bool, true, false, List, [], ◌∷◌, Option, none, some, ◌==◌, if◌then◌else◌, length,
}
use arax_g_rpc.Prelude.Outcome.{Outcome, ok, blocked, arax_assert}
use arax_g_rpc.Core.World.{Ptr, Vaccel, World, M, pure, ◌>>=◌, ◌>>◌, lift, gets, modify}
use arax_g_rpc.Core.World.Memory.{load_virt, unlink, has}

unfoldable pub add_orphan_vaccel : Ptr → M (Unit {0})
unfolding load_virt
add_orphan_vaccel p = do
  v ← load_virt p
  lift (arax_assert (v.phys == 0))
  modify (λ w. record w { orphan_vacs = p ∷ w.orphan_vacs })

unfoldable pub have_orphan_vaccels : World → ℕ
have_orphan_vaccels w = length w.orphan_vacs

-- `utils_list_pop_head` of the orphans
pop_orphan : M Ptr
pop_orphan w = elim w.orphan_vacs [
  | [] ↦ ok (0, w)
  | p ∷ ps ↦ ok (p, record w { orphan_vacs = ps })
]

-- The call with no orphan sleeps once: `wake` is what the other threads do until it is notified.
unfoldable pub get_orphan_vaccel : (World → World) → M Ptr
unfolding load_virt have_orphan_vaccels pop_orphan
get_orphan_vaccel wake = do
  modify (λ w. if have_orphan_vaccels w == 0 then wake w else w)
  p ← pop_orphan
  if p == 0 then pure p else do v ← load_virt p; lift (arax_assert (v.phys == 0)); pure p

-- A node that is linked is unlinked. The callers hold that `phys` is NULL, so that the one list the
-- node can be in is that of the orphans.
unfoldable pub remove_orphan_vaccel : Ptr → M (Unit {0})
unfolding unlink has
remove_orphan_vaccel p =
    modify λ w. if has p w.orphan_vacs then record w { orphan_vacs = unlink p w.orphan_vacs } else w
