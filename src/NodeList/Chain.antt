-- ===== src/NodeList/Chain.antt =====
-- Chains of linked nodes.
use arax_g_rpc.Prelude.{◌≡◌, refl, Bool, true, false, ◌||◌, List, [], ◌∷◌, ◌++◌, arith, ◌==◌}
use arax_g_rpc.NodeList.{Ptr, Mem}

-- `b` follows `a`, in both directions.
abbrev pub Link : Mem → Ptr → Ptr → Type 0
Link m a b = (m.next a ≡ b) × (m.prev b ≡ a)

-- From `a` the nodes `xs` are linked in order, and then `z`.
abbrev pub Chain : Mem → Ptr → List Ptr → Ptr → Type 0
Chain m a [] z = Link m a z
Chain m a (x ∷ xs) z = Link m a x × Chain m x xs z

abbrev pub has : Ptr → List Ptr → Bool
has a [] = false
has a (x ∷ xs) = (a == x) || has a xs

infix 40 ◌∈◌ ◌∉◌
abbrev pub ◌∈◌ : Ptr → List Ptr → Type 0
a ∈ xs = has a xs ≡ true

abbrev pub ◌∉◌ : Ptr → List Ptr → Type 0
a ∉ xs = has a xs ≡ false

abbrev pub Distinct : List Ptr → Type 0
Distinct [] = Unit {0}
Distinct (x ∷ xs) = (x ∉ xs) × Distinct xs

pub has-append : (a : Ptr) (xs ys : List Ptr) → has a (xs ++ ys) ≡ (has a xs || has a ys)
has-append a [] ys = refl
has-append a (x ∷ xs) ys = ground (arith, has-append a xs ys)

-- A chain survives a change that spares the `next` of all its nodes but the last, and the `prev` of
-- all but the first.
pub Chain-frame :
    (m m' : Mem) (a : Ptr) (xs : List Ptr) (z : Ptr)
    → Chain m a xs z
    → ((p : Ptr) → p ∈ (a ∷ xs) → m'.next p ≡ m.next p)
    → ((p : Ptr) → p ∈ (xs ++ (z ∷ [])) → m'.prev p ≡ m.prev p)
    → Chain m' a xs z
Chain-frame m m' a [] z (n, p) hn hp = (ground (arith, hn a), ground (arith, hp z))
Chain-frame m m' a (x ∷ xs) z ((n, p), c) hn hp = (
  (ground (arith, hn a), ground (arith, hp x)),
  Chain-frame m m' x xs z c (λ q h. hn q (ground arith)) (λ q h. hp q (ground arith)),
)

pub Chain-append :
    (m : Mem) (a : Ptr) (xs : List Ptr) (y : Ptr) (ys : List Ptr) (z : Ptr)
    → Chain m a xs y
    → Chain m y ys z
    → Chain m a (xs ++ (y ∷ ys)) z
Chain-append m a [] y ys z c d = (c, d)
Chain-append m a (x ∷ xs) y ys z (l, c) d = (l, Chain-append m x xs y ys z c d)

pub Chain-split :
    (m : Mem) (a : Ptr) (xs : List Ptr) (y : Ptr) (ys : List Ptr) (z : Ptr)
    → Chain m a (xs ++ (y ∷ ys)) z
    → Chain m a xs y × Chain m y ys z
Chain-split m a [] y ys z (l, d) = (l, d)
Chain-split m a (x ∷ xs) y ys z (l, c) = let (c', d) = Chain-split m x xs y ys z c in ((l, c'), d)
