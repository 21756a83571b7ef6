-- ===== src/NodeList/Walk.antt =====
-- The walk of `utils_list_for_each` in src/utils/list.h, as `utils_list_to_array` uses it.
use arax_g_rpc.Prelude.{ℕ, zero, suc, ◌+◌, ◌<◌, ◌≡◌, List, [], ◌∷◌, map, arith, length}
use arax_g_rpc.NodeList.{Ptr, Mem, owners_from, to_array}
use arax_g_rpc.NodeList.Chain.{Chain, ◌∉◌}
use arax_g_rpc.NodeList.IsList.{IsList}

walk :
    (m : Mem) (list a : Ptr) (xs : List Ptr) (fuel : ℕ)
    → Chain m a xs list
    → list ∉ xs
    → length xs < fuel
    → owners_from fuel list (m.next a) m ≡ map m.owner xs
unfolding owners_from
walk m list a xs zero c o h = absurd (omega arith)
walk m list a [] (suc fuel) (n, p) o h = ground arith
walk m list a (x ∷ xs) (suc fuel) ((n, p), c) o h = ground (arith, walk m list x xs fuel c)

-- `utils_list_to_array` of a list returns the number of its nodes and writes their owners in order.
pub to_array_lem :
    {list : Ptr} {m : Mem} {xs : List Ptr}
    → IsList m list xs
    → to_array list m ≡ (length xs, map m.owner xs)
unfolding to_array
to_array_lem {list} {m} {xs} is = by_nodes xs is
  where
    by_nodes : (ys : List Ptr) → IsList m list ys → to_array list m ≡ (length ys, map m.owner ys)
    by_nodes [] i = ground (arith, i.count)
    by_nodes (y ∷ ys) i = ground (
      arith,
      i.count,
      walk m list list (y ∷ ys) (m.length list + 1) i.chain i.distinct.0 (omega (arith, i.count)),
    )
