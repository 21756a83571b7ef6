-- ===== src/NodeList/Tests.antt =====
-- The list of src/utils/list.c at concrete inputs: a head at 1 and nodes at 2, 3 and 4.
use arax_g_rpc.Prelude.{◌+◌, ◌≡◌, ◌⊎◌, refl, false, List, [], ◌∷◌, arith}
use arax_g_rpc.NodeList.{Ptr, Mem, init, add, del, pop_head, pop_tail, node_linked, to_array}
use arax_g_rpc.NodeList.IsList.{IsList}
use arax_g_rpc.NodeList.Ops.{init-IsList, add-IsList, del-IsList, pop_head_lem, pop_tail_lem}
use arax_g_rpc.NodeList.Walk.{to_array_lem}

abbrev blank : Mem
blank = record { next = λ p. 0; prev = λ p. 0; owner = λ p. p + 100; length = λ p. 0 }

abbrev listed : Mem
listed = add 1 4 (add 1 3 (add 1 2 (init 1 blank)))

listed-IsList : IsList listed 1 (4 ∷ 3 ∷ 2 ∷ [])
listed-IsList =
    add-IsList 4
      (add-IsList 3 (add-IsList 2 (init-IsList 1 blank) refl (omega arith)) refl (omega arith)) refl
      (omega arith)

add-IsList_example : IsList (add 1 5 listed) 1 (5 ∷ 4 ∷ 3 ∷ 2 ∷ [])
add-IsList_example = add-IsList 5 listed-IsList refl (omega arith)

del-IsList_example :
    IsList (del 1 3 listed) 1 (4 ∷ 2 ∷ []) × (node_linked 3 (del 1 3 listed) ≡ false)
del-IsList_example = del-IsList (4 ∷ []) 3 (2 ∷ []) listed-IsList

pop_head_lem_example :
    (◌≡◌ {A = List Ptr} (4 ∷ 3 ∷ 2 ∷ []) []) × (pop_head 1 listed ≡ (0, listed))
    ⊎ ((x : Ptr) × (ys : List Ptr) × (◌≡◌ {A = List Ptr} (4 ∷ 3 ∷ 2 ∷ []) (x ∷ ys))
        × ((pop_head 1 listed).0 ≡ x)
        × IsList (pop_head 1 listed).1 1 ys)
pop_head_lem_example = pop_head_lem (4 ∷ 3 ∷ 2 ∷ []) listed-IsList

pop_tail_lem_example : ((pop_tail 1 listed).0 ≡ 2) × IsList (pop_tail 1 listed).1 1 (4 ∷ 3 ∷ [])
pop_tail_lem_example = pop_tail_lem (4 ∷ 3 ∷ []) 2 listed-IsList

to_array_lem_example : to_array 1 listed ≡ (3, 104 ∷ 103 ∷ 102 ∷ [])
unfolding add init
to_array_lem_example = to_array_lem listed-IsList
