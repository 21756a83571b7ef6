-- ===== src/Core/Listing/Balance.antt =====
-- The calls of Core/Listing keep the balance of the segment.
use arax_g_rpc.Prelude.{ℕ, ◌<◌, Bool, true, false, List, [], ◌∷◌, Option, none, some}
use arax_g_rpc.Throttle.{u64}
use arax_g_rpc.Core.World.{Ptr, Platform, M}
use arax_g_rpc.Core.World.Keeps.{Keeps, Keeps-bind, Keeps-if, Keeps-pure, Keeps-gets}
use arax_g_rpc.Core.World.Balance.{IsBalanced, balance_rules}
use arax_g_rpc.Core.Object.Balance.{Serves, ref_inc-Keeps}
use arax_g_rpc.Core.Create.Balance.{proc_init-Keeps}
use arax_g_rpc.Core.Lookup.Reads.{find_proc-Keeps}
use arax_g_rpc.Core.Release.Balance.{ref_dec-Keeps, ref_dec_pre_locked-Keeps}
use arax_g_rpc.Core.Listing.{
  type_at, collect, drop_each, list_free, list_free_pre_locked, list, proc_register,
}

module _ {cap : ℕ} where
  type_at-Keeps : (physical : Bool) (p : Ptr) → Keeps (IsBalanced cap) (type_at physical p)
  unfolding type_at
  type_at-Keeps true p = search balance_rules
  type_at-Keeps false p = search balance_rules

  collect-Keeps :
      (physical wanted : Bool) (type : ℕ) (ps : List Ptr)
      → Keeps (IsBalanced cap) (collect physical wanted type ps)
  unfolding collect
  collect-Keeps physical wanted type [] = search balance_rules
  collect-Keeps physical wanted type (p ∷ ps) = Keeps-bind _ _ (type_at-Keeps physical p) λ t.
      let rest = collect-Keeps physical wanted type ps in
      let taken = Keeps-if wanted _ _ (ref_inc-Keeps p) (Keeps-pure tt) in
      Keeps-if _ _ _ (Keeps-bind _ _ taken λ _. Keeps-bind _ _ rest λ r. Keeps-pure _) rest

  drop_each-Keeps :
      (dec : Ptr → M ℕ)
      → ((p : Ptr) → Keeps (IsBalanced cap) (dec p))
      → (ps : List Ptr) → Keeps (IsBalanced cap) (drop_each dec ps)
  unfolding drop_each
  drop_each-Keeps dec keep [] = search balance_rules
  drop_each-Keeps dec keep (p ∷ ps) = Keeps-bind _ _ (keep p) λ _. drop_each-Keeps dec keep ps

module _ {cap : ℕ} (small : cap < u64) (env : Platform) (serves : Serves env) where
  pub list_free-Keeps : (fuel : ℕ) (ps : List Ptr) → Keeps (IsBalanced cap) (list_free env fuel ps)
  unfolding list_free
  list_free-Keeps fuel ps = drop_each-Keeps _ (ref_dec-Keeps small env serves fuel) ps

  pub list-Keeps :
      (fuel type : ℕ) (physical : Bool) (accels : Option (List Ptr))
      → Keeps (IsBalanced cap) (list env fuel type physical accels)
  unfolding list list_free_pre_locked
  list-Keeps fuel type physical none = search (balance_rules, collect-Keeps)
  list-Keeps fuel type physical (some old) =
      let freed = drop_each-Keeps _ (ref_dec_pre_locked-Keeps small env serves fuel) old in
      Keeps-bind _ _ freed
        λ _. Keeps-bind _ _ (Keeps-gets _) λ ps. collect-Keeps physical true type ps

  pub proc_register-Keeps : (name : List ℕ) → Keeps (IsBalanced cap) (proc_register env name)
  unfolding proc_register
  proc_register-Keeps name =
      search (balance_rules, find_proc-Keeps, proc_init-Keeps small env serves)
