-- ===== src/Core/Listing/Refs.antt =====
-- One reference more or less to an object, and to each of a list, as functions of the cells.
use arax_g_rpc.Prelude.{
  ◌+◌, ◌-◌, ◌≡◌, refl, ◌∙◌, ap, false, List, [], ◌∷◌, some, ◌==◌, if◌then◌else◌, arith,
}
use arax_g_rpc.Core.World.{Ptr, Object, Cell}
use arax_g_rpc.Core.World.Memory.{find, replace, has}

-- One reference more to the object at an address, and one to each of a list.
unfoldable pub add_ref : Ptr → List Cell → List Cell
add_ref p [] = []
add_ref p (c ∷ cs) =
    let rest = add_ref p cs in
    if c.address == p
    then record c { object = record c.object { ref_count = c.object.ref_count + 1 } } ∷ cs
    else c ∷ rest

unfoldable pub add_refs : List Ptr → List Cell → List Cell
unfolding add_ref
add_refs [] cs = cs
add_refs (p ∷ ps) cs = add_refs ps (add_ref p cs)

unfoldable pub drop_ref : Ptr → List Cell → List Cell
drop_ref p [] = []
drop_ref p (c ∷ cs) =
    let rest = drop_ref p cs in
    if c.address == p
    then record c { object = record c.object { ref_count = c.object.ref_count - 1 } } ∷ cs
    else c ∷ rest

pub replace-add_ref :
    (p : Ptr) (o : Object) (cs : List Cell)
    → find p cs ≡ some o
    → replace p (record o { ref_count = o.ref_count + 1 }) cs ≡ add_ref p cs
unfolding find replace add_ref
replace-add_ref p o [] f = cc
replace-add_ref p o (c ∷ cs) f = ground (arith, replace-add_ref p o cs)

pub replace-drop_ref :
    (p : Ptr) (o : Object) (cs : List Cell)
    → find p cs ≡ some o
    → replace p (record o { ref_count = o.ref_count - 1 }) cs ≡ drop_ref p cs
unfolding find replace drop_ref
replace-drop_ref p o [] f = cc
replace-drop_ref p o (c ∷ cs) f = ground (arith, replace-drop_ref p o cs)

pub drop_ref-add_ref : (p : Ptr) (cs : List Cell) → drop_ref p (add_ref p cs) ≡ cs
unfolding drop_ref add_ref
drop_ref-add_ref p [] = refl
drop_ref-add_ref p (c ∷ cs) = ground (arith, drop_ref-add_ref p cs)

pub drop_ref-add_ref_other :
    (p q : Ptr) (cs : List Cell)
    → (p == q) ≡ false
    → drop_ref p (add_ref q cs) ≡ add_ref q (drop_ref p cs)
unfolding drop_ref add_ref
drop_ref-add_ref_other p q [] n = refl
drop_ref-add_ref_other p q (c ∷ cs) n = ground (arith, drop_ref-add_ref_other p q cs n)

pub find-add_ref_other :
    (p q : Ptr) (cs : List Cell) → (p == q) ≡ false → find p (add_ref q cs) ≡ find p cs
unfolding find add_ref
find-add_ref_other p q [] n = refl
find-add_ref_other p q (c ∷ cs) n = ground (arith, find-add_ref_other p q cs n)

pub find-add_ref :
    (p : Ptr) (o : Object) (cs : List Cell)
    → find p cs ≡ some o
    → find p (add_ref p cs) ≡ some (record o { ref_count = o.ref_count + 1 })
unfolding find add_ref
find-add_ref p o [] f = cc
find-add_ref p o (c ∷ cs) f = ground (arith, find-add_ref p o cs)

pub find-add_refs_other :
    (p : Ptr) (ps : List Ptr) (cs : List Cell)
    → has p ps ≡ false
    → find p (add_refs ps cs) ≡ find p cs
unfolding has add_refs
find-add_refs_other p [] cs n = refl
find-add_refs_other p (q ∷ ps) cs n =
    find-add_refs_other p ps (add_ref q cs) (ground (arith, n))
    ∙ find-add_ref_other p q cs (ground (arith, n))

pub drop_ref-add_refs :
    (p : Ptr) (ps : List Ptr) (cs : List Cell)
    → has p ps ≡ false
    → drop_ref p (add_refs ps cs) ≡ add_refs ps (drop_ref p cs)
unfolding has add_refs
drop_ref-add_refs p [] cs n = refl
drop_ref-add_refs p (q ∷ ps) cs n =
    drop_ref-add_refs p ps (add_ref q cs) (ground (arith, n))
    ∙ ap (add_refs ps) (drop_ref-add_ref_other p q cs (ground (arith, n)))
