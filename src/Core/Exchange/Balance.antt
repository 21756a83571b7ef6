-- ===== src/Core/Exchange/Balance.antt =====
-- The calls of Core/Exchange keep the balance of the segment.
use arax_g_rpc.Prelude.{ℕ, ◌<◌, List, Option}
use arax_g_rpc.Throttle.{u64}
use arax_g_rpc.Core.World.{Ptr, Platform, M}
use arax_g_rpc.Core.World.Keeps.{Keeps}
use arax_g_rpc.Core.World.Balance.{IsBalanced, balance_rules}
use arax_g_rpc.Core.Object.Balance.{Serves, ref_inc-Keeps}
use arax_g_rpc.Core.Accel.Balance.{size_dec-Keeps}
use arax_g_rpc.Core.Data.{size}
use arax_g_rpc.Core.Data.Balance.{put_accel-Keeps}
use arax_g_rpc.Core.Task.{wait, host_data}
use arax_g_rpc.Core.Task.Balance.{issue-Keeps, wait_done-Keeps}
use arax_g_rpc.Core.Release.Balance.{proc_get-Keeps}
use arax_g_rpc.Core.Exchange.{
  wait_completed, get_issue, get_collect, set, allocate_issue, allocate_collect,
}

module _ {cap : ℕ} where
  size-Keeps : (p : Ptr) → Keeps (IsBalanced cap) (size p)
  unfolding size
  size-Keeps p = search balance_rules

  host_data-Keeps : (p : Ptr) (n : ℕ) → Keeps (IsBalanced cap) (host_data p n)
  unfolding host_data
  host_data-Keeps p n = search balance_rules depth 9

  wait_completed-Keeps : (p : Ptr) → Keeps (IsBalanced cap) (wait_completed p)
  unfolding wait_completed wait
  wait_completed-Keeps p = search (balance_rules, wait_done-Keeps) depth 9

module _ {cap : ℕ} (small : cap < u64) (env : Platform) (serves : Serves env) (dec : Ptr → M ℕ)
    (keep : (p : Ptr) → Keeps (IsBalanced cap) (dec p)) where
  pub get_issue-Keeps : (p : Ptr) → Keeps (IsBalanced cap) (get_issue env dec p)
  unfolding get_issue
  get_issue-Keeps p =
      search
        (
          balance_rules,
          proc_get-Keeps small env serves,
          size-Keeps,
          issue-Keeps small env serves dec keep,
        )
        depth 14

  pub get_collect-Keeps :
      (p user proc task : Ptr) → Keeps (IsBalanced cap) (get_collect env dec p user proc task)
  unfolding get_collect
  get_collect-Keeps p user proc task =
      search (balance_rules, wait_completed-Keeps, size-Keeps, host_data-Keeps, keep) depth 16

  pub set-Keeps :
      (p accel : Ptr) (user : Option (List ℕ)) → Keeps (IsBalanced cap) (set env dec p accel user)
  unfolding set
  set-Keeps p accel user =
      search
        (
          balance_rules,
          proc_get-Keeps small env serves,
          ref_inc-Keeps,
          put_accel-Keeps,
          size-Keeps,
          issue-Keeps small env serves dec keep,
          keep,
        )
        depth 18

  pub allocate_issue-Keeps :
      (p accel : Ptr) → Keeps (IsBalanced cap) (allocate_issue env dec p accel)
  unfolding allocate_issue
  allocate_issue-Keeps p accel =
      search
        (
          balance_rules,
          proc_get-Keeps small env serves,
          ref_inc-Keeps,
          put_accel-Keeps,
          issue-Keeps small env serves dec keep,
        )
        depth 18

  pub allocate_collect-Keeps :
      (p accel task : Ptr) → Keeps (IsBalanced cap) (allocate_collect env dec p accel task)
  unfolding allocate_collect
  allocate_collect-Keeps p accel task =
      search (balance_rules, wait_completed-Keeps, size-Keeps, size_dec-Keeps, keep) depth 18
