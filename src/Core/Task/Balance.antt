-- ===== src/Core/Task/Balance.antt =====
-- The calls on tasks keep the balance of the segment.
use arax_g_rpc.Prelude.{false, ℕ, ◌<◌, List, [], ◌∷◌, Option, none, some}
use arax_g_rpc.Throttle.{u64}
use arax_g_rpc.Core.World.{Ptr, TaskState, World, Platform, M}
use arax_g_rpc.Core.World.Keeps.{Keeps, Keeps-bind, Keeps-if, Keeps-pure}
use arax_g_rpc.Core.World.Balance.{IsBalanced, balance_rules}
use arax_g_rpc.Core.Object.Balance.{Serves, ref_inc-Keeps, register-Keeps}
use arax_g_rpc.Core.Data.Balance.{input_init-Keeps, output_init-Keeps}
use arax_g_rpc.Core.Vaccel.Balance
use arax_g_rpc.Core.Task.{
  valid_io, all_valid, semantics_from, check_semantics, init_inputs, init_outputs, alloc, put_host,
  put_init, submit, wait_done, mark_done, issue,
}

module _ {P : World → Type 0} where
  valid_io-Keeps : (p : Ptr) → Keeps P (valid_io p)
  unfolding valid_io
  valid_io-Keeps p = search balance_rules

  all_valid-Keeps : (ps : List Ptr) → Keeps P (all_valid ps)
  unfolding all_valid
  all_valid-Keeps [] = search balance_rules
  all_valid-Keeps (p ∷ ps) =
      Keeps-bind _ _ (valid_io-Keeps p)
        λ good. Keeps-if good _ _ (all_valid-Keeps ps) (Keeps-pure false)

  semantics_from-Keeps : (all ps : List Ptr) → Keeps P (semantics_from all ps)
  unfolding semantics_from
  semantics_from-Keeps all [] = search balance_rules
  semantics_from-Keeps all (p ∷ ps) = Keeps-bind _ _ (valid_io-Keeps p) λ good.
      Keeps-bind _ _ (Keeps-if good _ _ (all_valid-Keeps all) (Keeps-pure false))
        λ again. Keeps-if again _ _ (semantics_from-Keeps all ps) (Keeps-pure false)

  check_semantics-Keeps : (ins outs : List Ptr) → Keeps P (check_semantics ins outs)
  unfolding check_semantics
  check_semantics-Keeps ins outs = semantics_from-Keeps _ _

module _ {cap : ℕ} where
  put_init-Keeps :
      (p : Ptr) (size : ℕ) (host : Option (List ℕ)) → Keeps (IsBalanced cap) (put_init p size host)
  unfolding put_init put_host
  put_init-Keeps p size none = search balance_rules
  put_init-Keeps p size (some host) = search balance_rules depth 9

  submit-Keeps : (p : Ptr) → Keeps (IsBalanced cap) (submit p)
  unfolding submit
  submit-Keeps p = search (balance_rules, ref_inc-Keeps, Balance.add_task-Keeps) depth 9

  pub wait_done-Keeps : (p : Ptr) → Keeps (IsBalanced cap) (wait_done p)
  unfolding wait_done
  wait_done-Keeps p = search balance_rules depth 9

  pub mark_done-Keeps : (p : Ptr) (s : TaskState) → Keeps (IsBalanced cap) (mark_done p s)
  unfolding mark_done
  mark_done-Keeps p s = search balance_rules

module _ {cap : ℕ} (small : cap < u64) (env : Platform) (serves : Serves env) (dec : Ptr → M ℕ)
    (keep : (p : Ptr) → Keeps (IsBalanced cap) (dec p)) where
  init_inputs-Keeps : (ds : List Ptr) (a : Ptr) → Keeps (IsBalanced cap) (init_inputs env dec ds a)
  unfolding init_inputs
  init_inputs-Keeps [] a = search balance_rules
  init_inputs-Keeps (d ∷ ds) a =
      search (balance_rules, input_init-Keeps dec keep d a, init_inputs-Keeps ds a)

  init_outputs-Keeps :
      (ds : List Ptr) (a : Ptr) → Keeps (IsBalanced cap) (init_outputs env dec ds a)
  unfolding init_outputs
  init_outputs-Keeps [] a = search balance_rules
  init_outputs-Keeps (d ∷ ds) a =
      search (balance_rules, output_init-Keeps dec keep d a, init_outputs-Keeps ds a)

  alloc-Keeps :
      (a p : Ptr) (n : ℕ) (ins outs : List Ptr)
      → Keeps (IsBalanced cap) (alloc env dec a p n ins outs)
  unfolding alloc
  alloc-Keeps a p n ins outs =
      search (balance_rules, register-Keeps small env serves, init_inputs-Keeps, init_outputs-Keeps)
        depth 12

  pub issue-Keeps :
      (a p : Ptr) (host : Option (List ℕ)) (n : ℕ) (ins outs : List Ptr)
      → Keeps (IsBalanced cap) (issue env dec a p host n ins outs)
  unfolding issue
  issue-Keeps a p host n ins outs =
      search (balance_rules, check_semantics-Keeps, alloc-Keeps, put_init-Keeps, submit-Keeps) depth
        12
