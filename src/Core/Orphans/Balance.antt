-- ===== src/Core/Orphans/Balance.antt =====
-- The calls of Core/Orphans keep the balance of the segment.
use arax_g_rpc.Core.World.{Ptr, World, modify}
use arax_g_rpc.Core.World.Keeps.{Keeps, Keeps-modify}
use arax_g_rpc.Core.World.Balance.{IsBalanced, balance_rules}
use arax_g_rpc.Core.Orphans.{add_orphan_vaccel, remove_orphan_vaccel}
use arax_g_rpc.Prelude.{ℕ, List, arith}

module _ {cap : ℕ} where
  orphans-Keeps :
      (f : World → List Ptr) → Keeps (IsBalanced cap) (modify λ w. record w { orphan_vacs = f w })
  orphans-Keeps f = Keeps-modify _ (λ w h. record { counted = h.counted; whole = h.whole })

  pub add_orphan_vaccel-Keeps : (p : Ptr) → Keeps (IsBalanced cap) (add_orphan_vaccel p)
  unfolding add_orphan_vaccel
  add_orphan_vaccel-Keeps p = search (balance_rules, orphans-Keeps)

  pub remove_orphan_vaccel-Keeps : (p : Ptr) → Keeps (IsBalanced cap) (remove_orphan_vaccel p)
  unfolding remove_orphan_vaccel
  remove_orphan_vaccel-Keeps p = Keeps-modify _ (λ w h. ground (arith, h.counted, h.whole))
