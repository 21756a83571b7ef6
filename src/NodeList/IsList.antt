-- ===== src/NodeList/IsList.antt =====
-- What it means that a `utils_list_s` of src/utils/list.h holds certain nodes in order.
use arax_g_rpc.Prelude.{
  ◌^◌, ◌<◌, ◌≡◌, refl, ap, false, List, [], ◌∷◌, ◌++◌, arith, ◌==◌, length, Bool-cases, inl, inr,
}
use arax_g_rpc.NodeList.{Ptr, Mem, update, del}
use arax_g_rpc.NodeList.Chain.{Chain, has, ◌∈◌, ◌∉◌, Distinct, has-append}

pub record IsList (m : Mem) (list : Ptr) (xs : List Ptr) : Type 0 where
  pub chain : Chain m list xs list
  pub distinct : Distinct (list ∷ xs)
  pub count : m.length list ≡ length xs
  pub small : length xs < 2 ^ 64

pub Distinct-drop :
    (xs : List Ptr) (n : Ptr) (ys : List Ptr) → Distinct (xs ++ (n ∷ ys)) → Distinct (xs ++ ys)
Distinct-drop [] n ys (o, d) = d
Distinct-drop (x ∷ xs) n ys (o, d) =
    (ground (arith, has-append x xs (n ∷ ys), has-append x xs ys), Distinct-drop xs n ys d)

pub Distinct-behind : (xs ys : List Ptr) → Distinct (xs ++ ys) → Distinct ys
Distinct-behind [] ys d = d
Distinct-behind (x ∷ xs) ys (o, d) = Distinct-behind xs ys d

-- The node in the middle is none of the others, and no node before it stands behind it.
pub Distinct-middle :
    (xs : List Ptr) (n : Ptr) (ys : List Ptr)
    → Distinct (xs ++ (n ∷ ys))
    → (n ∉ xs) × (n ∉ ys) × ((p : Ptr) → p ∈ xs → p ∉ ys) × Distinct xs
Distinct-middle [] n ys (o, d) = (refl, o, λ p h. cc, tt)
Distinct-middle (x ∷ xs) n ys (o, d) =
    let (a, b, c, e) = Distinct-middle xs n ys d in
    (
      ground (arith, has-append x xs (n ∷ ys)),
      b,
      λ p h. ground (arith, has-append x xs (n ∷ ys), c p),
      (ground (arith, has-append x xs (n ∷ ys)), e),
    )

pub last-mem : (m : Mem) (a : Ptr) (xs : List Ptr) (z : Ptr) → Chain m a xs z → m.prev z ∈ (a ∷ xs)
last-mem m a [] z (n, p) = ground arith
last-mem m a (x ∷ xs) z (l, c) = ground (arith, last-mem m x xs z c)

-- A chain whose last node is made to lead to `s`.
relink :
    (m m' : Mem) (a : Ptr) (xs : List Ptr) (z s : Ptr)
    → Chain m a xs z
    → Distinct (a ∷ xs)
    → m'.next (m.prev z) ≡ s
    → m'.prev s ≡ m.prev z
    → ((q : Ptr) → q ∈ (a ∷ xs) → (q == m.prev z) ≡ false → m'.next q ≡ m.next q)
    → ((q : Ptr) → q ∈ xs → m'.prev q ≡ m.prev q)
    → Chain m' a xs s
relink m m' a [] z s (n, p) d hs hz hn hp = ground arith
relink m m' a (x ∷ xs) z s ((n, p), c) (o, d) hs hz hn hp = (
  (ground (arith, hn a, last-mem m x xs z c), ground (arith, hp x)),
  relink m m' x xs z s c d hs hz (λ q h. hn q (ground arith)) (λ q h. hp q (ground arith)),
)

pub del-next :
    (list n : Ptr) (m : Mem) (q : Ptr)
    → (del list n m).next q ≡ update (update m.next (m.prev n) (m.next n)) n n q
unfolding del
del-next list n m q = ground arith

pub del-prev :
    (list n : Ptr) (m : Mem) (q : Ptr)
    → (del list n m).prev q ≡ update (update m.prev (m.next n) (m.prev n)) n n q
unfolding del
del-prev list n m q = ground arith

module _ (m : Mem) (list n : Ptr) (xs : List Ptr) where
  -- What stands before the node deleted leads to what stood behind it.
  pub unlink-front :
      (s : Ptr)
      → Chain m list xs n
      → m.next n ≡ s
      → Distinct (list ∷ xs)
      → n ∉ (list ∷ xs)
      → s ∉ xs
      → (n == s) ≡ false
      → Chain (del list n m) list xs s
  unlink-front s c e d out os ns =
      relink m (del list n m) list xs n s c d (ground (arith, del-next list n m (m.prev n), last))
        (ground (arith, del-prev list n m s))
        (λ q h k. ground (arith, del-next list n m q, apart q h))
        (λ q h. ground (arith, del-prev list n m q, apart q, other q h))
    where
      apart : (q : Ptr) → q ∈ (list ∷ xs) → (n == q) ≡ false
      apart q h = elim (Bool-cases (n == q)) [
        | inl e' ↦
            let f : n ≡ q = ground arith in absurd (cc (ap (λ (k : Ptr). has k (list ∷ xs)) f))
        | inr e' ↦ e'
      ]

      other : (q : Ptr) → q ∈ xs → (s == q) ≡ false
      other q h = elim (Bool-cases (s == q)) [
        | inl e' ↦ let f : s ≡ q = ground arith in absurd (cc (ap (λ (k : Ptr). has k xs) f))
        | inr e' ↦ e'
      ]

      last : (n == m.prev n) ≡ false
      last = apart (m.prev n) (last-mem m list xs n c)
