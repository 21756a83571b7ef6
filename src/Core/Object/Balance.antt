-- ===== src/Core/Object/Balance.antt =====
-- Registration and release keep the balance of the segment (src/core/arax_object.c).
use arax_g_rpc.Prelude.{ℕ, ◌≢◌, ◌<◌, refl, List, arith, Option-cases, inl, inr}
use arax_g_rpc.Throttle.{u64}
use arax_g_rpc.Core.World.{Ptr, ObjectType, Body, Cell, Platform, M, ◌>>=◌}
use arax_g_rpc.Core.World.Keeps.{Keeps, Keeps-modify, keeps_rules}
use arax_g_rpc.Core.World.Balance.{IsBalanced, total, total-remove, Keeps-rewrite, balance_rules}
use arax_g_rpc.Core.World.Memory.{find}
use arax_g_rpc.Core.Object.{
  list_add, list_del, register, rename, set_ref_count, ref_inc, give_back, release, ref_dec_with,
  ref_dec_pre_locked_with,
}

-- The allocator of the segment does not run out before the throttle does.
pub record Serves (env : Platform) : Type 0 where
  pub not_null : (cs : List Cell) (n : ℕ) → env.allocate cs n ≢ 0

module _ {cap : ℕ} where
  set_ref_count-Keeps : (p : Ptr) (n : ℕ) → Keeps (IsBalanced cap) (set_ref_count p n)
  unfolding set_ref_count
  set_ref_count-Keeps p n = Keeps-rewrite p (λ o. record o { ref_count = n }) (λ o. refl)

  pub rename-Keeps : (p : Ptr) (n : List ℕ) → Keeps (IsBalanced cap) (rename p n)
  unfolding rename
  rename-Keeps p n = Keeps-rewrite p _ (λ o. refl)

  list_add-Keeps : (t : ObjectType) (p : Ptr) → Keeps (IsBalanced cap) (list_add t p)
  unfolding list_add
  list_add-Keeps t p = Keeps-modify _ (λ w h. record { counted = h.counted; whole = h.whole })

  list_del-Keeps : (t : ObjectType) (p : Ptr) → Keeps (IsBalanced cap) (list_del t p)
  unfolding list_del
  list_del-Keeps t p = Keeps-modify _ (λ w h. record { counted = h.counted; whole = h.whole })

  pub ref_inc-Keeps : (p : Ptr) → Keeps (IsBalanced cap) (ref_inc p)
  unfolding ref_inc
  ref_inc-Keeps p = search (balance_rules, set_ref_count-Keeps)

module _ {cap : ℕ} (small : cap < u64) where
  -- What the memory took goes back to the throttle.
  give_back-Keeps : (p : Ptr) → Keeps (IsBalanced cap) (give_back p)
  unfolding give_back ◌>>=◌
  give_back-Keeps p = record {
    at = λ w a w' h e. elim (Option-cases (find p w.cells)) [
      | inl n ↦ ground arith
      | inr (o, s) ↦ ground (arith, total-remove p o w.cells s, h.counted, h.whole)
    ];
  }

  pub register-Keeps :
      (env : Platform)
      → Serves env
      → (name : List ℕ) (size n : ℕ) (b : Body)
      → Keeps (IsBalanced cap) (register env name size n b)
  unfolding register ◌>>=◌ total
  register-Keeps env s name size n b = record {
    at = λ w a w' h e. ground (arith, s.not_null w.cells size, h.counted, h.whole);
  }

  module _ (dtor : ObjectType → Ptr → M (Unit {0}))
      (keep : (t : ObjectType) (p : Ptr) → Keeps (IsBalanced cap) (dtor t p)) where
    release-Keeps : (t : ObjectType) (p : Ptr) → Keeps (IsBalanced cap) (release dtor t p)
    unfolding release
    release-Keeps t p = search (keeps_rules, list_del-Keeps, give_back-Keeps, keep)

    pub ref_dec_with-Keeps : (p : Ptr) → Keeps (IsBalanced cap) (ref_dec_with dtor p)
    unfolding ref_dec_with
    ref_dec_with-Keeps p = search (balance_rules, set_ref_count-Keeps, release-Keeps) depth 9

    pub ref_dec_pre_locked_with-Keeps :
        (p : Ptr) → Keeps (IsBalanced cap) (ref_dec_pre_locked_with dtor p)
    unfolding ref_dec_pre_locked_with
    ref_dec_pre_locked_with-Keeps p =
        search (balance_rules, set_ref_count-Keeps, release-Keeps) depth 9
