-- ===== src/Core/Lookup/Reads.antt =====
-- The searches of Core/Lookup change nothing, so that they keep whatever holds.
use arax_g_rpc.Prelude.{ℕ, List, [], ◌∷◌, Option}
use arax_g_rpc.Core.World.{Ptr, World}
use arax_g_rpc.Core.World.Keeps.{Keeps, Keeps-bind, Keeps-if, Keeps-pure}
use arax_g_rpc.Core.World.Balance.{Keeps-load, Keeps-load_phys, balance_rules}
use arax_g_rpc.Core.Lookup.{find_proc_in, find_proc, find_accel_in, find_accel}

module _ {P : World → Type 0} where
  find_proc_in-Keeps : (ps : List Ptr) (name : List ℕ) → Keeps P (find_proc_in ps name)
  unfolding find_proc_in
  find_proc_in-Keeps [] name = search balance_rules
  find_proc_in-Keeps (p ∷ ps) name =
      Keeps-bind _ _ (Keeps-load p) λ o. Keeps-if _ _ _ (Keeps-pure p) (find_proc_in-Keeps ps name)

  pub find_proc-Keeps : (name : List ℕ) → Keeps P (find_proc name)
  unfolding find_proc
  find_proc-Keeps name = search (balance_rules, find_proc_in-Keeps)

  find_accel_in-Keeps :
      (ps : List Ptr) (name : Option (List ℕ)) (t : ℕ) → Keeps P (find_accel_in ps name t)
  unfolding find_accel_in
  find_accel_in-Keeps [] name t = search balance_rules
  find_accel_in-Keeps (p ∷ ps) name t = Keeps-bind _ _ (Keeps-load_phys p) λ a.
      Keeps-bind _ _ (Keeps-load p)
        λ o. Keeps-if _ _ _ (Keeps-pure p) (find_accel_in-Keeps ps name t)

  pub find_accel-Keeps : (name : Option (List ℕ)) (t : ℕ) → Keeps P (find_accel name t)
  unfolding find_accel
  find_accel-Keeps name t = search (balance_rules, find_accel_in-Keeps)
