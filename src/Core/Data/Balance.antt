-- ===== src/Core/Data/Balance.antt =====
-- The calls of src/core/arax_data.c keep the balance of the segment.
use arax_g_rpc.Prelude.{ℕ}
use arax_g_rpc.Core.World.{Ptr, M}
use arax_g_rpc.Core.World.Keeps.{Keeps}
use arax_g_rpc.Core.World.Balance.{IsBalanced, balance_rules}
use arax_g_rpc.Core.Object.Balance.{ref_inc-Keeps}
use arax_g_rpc.Core.Data.{
  put_accel, same_phys, move_accel, migrate_accel, input_init, output_init, set_accel, set_remote,
}

module _ {cap : ℕ} where
  pub put_accel-Keeps : (p a : Ptr) → Keeps (IsBalanced cap) (put_accel p a)
  unfolding put_accel
  put_accel-Keeps p a = search balance_rules

  same_phys-Keeps : (a b : Ptr) → Keeps (IsBalanced cap) (same_phys a b)
  unfolding same_phys
  same_phys-Keeps a b = search balance_rules

  pub set_accel-Keeps : (p a : Ptr) → Keeps (IsBalanced cap) (set_accel p a)
  unfolding set_accel
  set_accel-Keeps p a = search (balance_rules, put_accel-Keeps, ref_inc-Keeps) depth 9

  pub set_remote-Keeps : (p a r : Ptr) → Keeps (IsBalanced cap) (set_remote p a r)
  unfolding set_remote
  set_remote-Keeps p a r = search (balance_rules, ref_inc-Keeps) depth 12

  module _ (dec : Ptr → M ℕ) (keep : (p : Ptr) → Keeps (IsBalanced cap) (dec p)) where
    move_accel-Keeps : (p a b : Ptr) → Keeps (IsBalanced cap) (move_accel dec p a b)
    unfolding move_accel
    move_accel-Keeps p a b =
        search (balance_rules, put_accel-Keeps, same_phys-Keeps, ref_inc-Keeps, keep) depth 12

    pub migrate_accel-Keeps : (p a : Ptr) → Keeps (IsBalanced cap) (migrate_accel dec p a)
    unfolding migrate_accel
    migrate_accel-Keeps p a =
        search (balance_rules, put_accel-Keeps, move_accel-Keeps, ref_inc-Keeps) depth 12

    pub input_init-Keeps : (p a : Ptr) → Keeps (IsBalanced cap) (input_init dec p a)
    unfolding input_init
    input_init-Keeps p a = search (balance_rules, migrate_accel-Keeps, ref_inc-Keeps)

    pub output_init-Keeps : (p a : Ptr) → Keeps (IsBalanced cap) (output_init dec p a)
    unfolding output_init
    output_init-Keeps p a = search (balance_rules, migrate_accel-Keeps, ref_inc-Keeps)
