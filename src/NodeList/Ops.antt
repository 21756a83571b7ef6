-- ===== src/NodeList/Ops.antt =====
-- The operations of src/utils/list.c, as operations on the sequence of nodes.
use mathlib.Core.List.{append-nil, append_assoc}
use arax_g_rpc.Prelude.{
  ◌+◌, ◌^◌, ◌<◌, ◌≡◌, ◌⊎◌, refl, ap, ◌∙◌, false, List, [], ◌∷◌, ◌++◌, arith, ◌==◌, length,
  length-append, Bool-cases, inl, inr,
}
use arax_g_rpc.NodeList.{
  Ptr, Mem, update, init, add, del, inc, dec, pop_head, pop_tail, node_linked,
}
use arax_g_rpc.NodeList.Chain.{
  Chain, has, ◌∈◌, ◌∉◌, Distinct, has-append, Chain-frame, Chain-append, Chain-split,
}
use arax_g_rpc.NodeList.IsList.{
  IsList, Distinct-drop, Distinct-middle, Distinct-behind, last-mem, unlink-front, del-next,
  del-prev,
}

-- `utils_list_init` makes the empty list.
pub init-IsList : (list : Ptr) (m : Mem) → IsList (init list m) list []
unfolding init
init-IsList list m = ground arith

add-next :
    (list n : Ptr) (m : Mem) (q : Ptr)
    → (add list n m).next q ≡ update (update m.next n (m.next list)) list n q
unfolding add
add-next list n m q = ground arith

add-prev :
    (list n : Ptr) (m : Mem) (q : Ptr)
    → (add list n m).prev q ≡ update (update m.prev (m.next list) n) n list q
unfolding add
add-prev list n m q = ground arith

add-length : (list n : Ptr) (m : Mem) → (add list n m).length list ≡ inc (m.length list)
unfolding add
add-length list n m = ground arith

-- A node among some is not one that stands outside them.
apart : (n q : Ptr) (xs : List Ptr) → q ∈ xs → n ∉ xs → (n == q) ≡ false
apart n q xs h o = elim (Bool-cases (n == q)) [
  | inl e ↦ let f : n ≡ q = ground arith in absurd (cc (ap (λ (k : Ptr). has k xs) f))
  | inr e ↦ e
]

link-front :
    (m : Mem) (list n : Ptr) (xs : List Ptr)
    → Chain m list xs list
    → Distinct (list ∷ xs)
    → n ∉ (list ∷ xs)
    → Chain (add list n m) list (n ∷ xs) list
link-front m list n [] c d o = ground (
  arith,
  add-next list n m list,
  add-next list n m n,
  add-prev list n m list,
  add-prev list n m n,
)
link-front m list n (y ∷ ys) ((l, b), c) (h, d) o = (
  (ground (arith, add-next list n m list), ground (arith, add-prev list n m n)),
  (
    (ground (arith, add-next list n m n), ground (arith, add-prev list n m y)),
    Chain-frame m (add list n m) y ys list c
        (λ q i.
          ground (arith, add-next list n m q, apart list q (y ∷ ys) i h, apart n q (y ∷ ys) i))
        (λ q i. ground (
          arith,
          add-prev list n m q,
          apart n q (ys ++ (list ∷ [])) i,
          apart y q (ys ++ (list ∷ [])) i,
          has-append n ys (list ∷ []),
          has-append y ys (list ∷ []),
        )),
  ),
)

-- Where a head leads to certain nodes in order, linked in both directions, `utils_list_add` of a
-- node that is not among them and not the head makes it the first, as long as the length stays
-- within `size_t`.
pub add-IsList :
    {list : Ptr} {m : Mem} {xs : List Ptr} (node : Ptr)
    → IsList m list xs
    → node ∉ (list ∷ xs)
    → length xs + 1 < 2 ^ 64
    → IsList (add list node m) list (node ∷ xs)
add-IsList {list} {m} {xs} node is out fits = record {
  chain = link-front m list node xs is.chain is.distinct out;
  distinct = ground (arith, is.distinct);
  count = add-length list node m ∙ ground (arith, is.count);
  small = omega arith;
}

del-length : (list n : Ptr) (m : Mem) → (del list n m).length list ≡ dec (m.length list)
unfolding del
del-length list n m = ground arith

unlink :
    (list : Ptr) (m : Mem) (xs : List Ptr) (n : Ptr) (ys : List Ptr)
    → Chain m list xs n
    → Chain m n ys list
    → Distinct (list ∷ (xs ++ (n ∷ ys)))
    → Chain (del list n m) list (xs ++ ys) list
unlink list m xs n [] c (l, p) d =
    let (o, _, _, e) = Distinct-middle (list ∷ xs) n [] d in
    rw append-nil (unlink-front m list n xs list c l e o e.0 (ground arith))
unlink list m xs n (y ∷ ys) c (l, r) d =
    let (o, p, s, e) = Distinct-middle (list ∷ xs) n (y ∷ ys) d in
    let back = Distinct-behind (list ∷ (xs ++ (n ∷ []))) (y ∷ ys) (rw (append_assoc, ◌++◌) d) in
    Chain-append (del list n m) list xs y ys list
      (unlink-front m list n xs y c l.0 e o (before s) (ground arith))
      (Chain-frame m (del list n m) y ys list r
        (λ q h. ground (
          arith,
          del-next list n m q,
          apart n q (y ∷ ys) h p,
          apart (m.prev n) q (y ∷ ys) h (s _ (last-mem m list xs n c)),
        ))
        (λ q h. ground (
          arith,
          del-prev list n m q,
          s list,
          apart n q (ys ++ (list ∷ [])) h,
          apart y q (ys ++ (list ∷ [])) h,
          has-append n ys (list ∷ []),
          has-append y ys (list ∷ []),
        )))
  where
    before : ((p' : Ptr) → p' ∈ (list ∷ xs) → p' ∉ (y ∷ ys)) → y ∉ xs
    before s = elim (Bool-cases (has y xs)) [ inl i ↦ absurd (ground (arith, s y)) | inr o ↦ o ]

-- Where a head leads to certain nodes in order, `utils_list_del` of any of them leaves the others in
-- their order with the right length, and the node taken out linked to itself.
pub del-IsList :
    {list : Ptr} {m : Mem} (xs : List Ptr) (n : Ptr) (ys : List Ptr)
    → IsList m list (xs ++ (n ∷ ys))
    → IsList (del list n m) list (xs ++ ys) × (node_linked n (del list n m) ≡ false)
unfolding node_linked
del-IsList {list} {m} xs n ys is = (
  record {
    chain = unlink list m xs n ys front.0 front.1 is.distinct;
    distinct = Distinct-drop (list ∷ xs) n ys is.distinct;
    count = ground (
      arith,
      del-length list n m,
      is.count,
      is.small,
      length-append xs (n ∷ ys),
      length-append xs ys,
    );
    small = omega (arith, is.small, length-append xs (n ∷ ys), length-append xs ys);
  },
  ground (arith, del-next list n m n),
)
  where
    front : Chain m list xs n × Chain m n ys list
    front = Chain-split m list xs n ys list is.chain

-- `utils_list_pop_head` of a list returns NULL and changes nothing where the list is empty; else it
-- returns the first node and leaves a list of the others.
pub pop_head_lem :
    {list : Ptr} {m : Mem} (xs : List Ptr)
    → IsList m list xs
    → (xs ≡ []) × (pop_head list m ≡ (0, m))
      ⊎ ((x : Ptr) × (ys : List Ptr) × (xs ≡ x ∷ ys)
          × ((pop_head list m).0 ≡ x)
          × IsList (pop_head list m).1 list ys)
unfolding pop_head
pop_head_lem {list} {m} [] is = inl (refl, ground (arith, is.count))
pop_head_lem {list} {m} (x ∷ xs) is =
    inr (x, xs, refl, ground (arith, is.count, is.chain), rw taken (del-IsList [] x xs is).0)
  where
    taken : (pop_head list m).1 ≡ del list x m
    taken = ground (arith, is.count, is.chain)

-- `utils_list_pop_tail` of a list that is not empty returns the last node and leaves a list of the
-- others.
pub pop_tail_lem :
    {list : Ptr} {m : Mem} (xs : List Ptr) (x : Ptr)
    → IsList m list (xs ++ (x ∷ []))
    → ((pop_tail list m).0 ≡ x) × IsList (pop_tail list m).1 list xs
unfolding pop_tail
pop_tail_lem {list} {m} xs x is =
    (ground (arith, some_nodes, last), rw taken (rw (append-nil xs) at (del-IsList xs x [] is).0))
  where
    last : m.prev list ≡ x
    last = (Chain-split m list xs x [] list is.chain).1.1

    some_nodes : m.length list ≡ length xs + 1
    some_nodes = omega (arith, is.count, length-append xs (x ∷ []))

    taken : (pop_tail list m).1 ≡ del list x m
    taken = ground (arith, some_nodes, last)
