-- ===== src/Core/Object/Counts.antt =====
-- Reference counts (src/core/arax_object.c).
use arax_g_rpc.Prelude.{◌+◌, ◌-◌, ◌^◌, ◌≡◌, ◌≢◌, ◌<◌, refl, ◌∙◌, List, [], ◌∷◌, some, arith, true}
use arax_g_rpc.Prelude.Outcome.{ok}
use arax_g_rpc.Core.World.{Ptr, ObjectType, type_of, Object, Cell, World, M, ◌>>=◌, ◌>>◌}
use arax_g_rpc.Core.World.Memory.{find, replace}
use arax_g_rpc.Core.Object.{ref_inc, ref_dec_with, valid_type}

pub find-replace :
    (p : Ptr) (o n : Object) (cs : List Cell)
    → find p cs ≡ some o
    → find p (replace p n cs) ≡ some n
unfolding find replace
find-replace p o n [] f = cc
find-replace p o n (c ∷ cs) f = ground (arith, find-replace p o n cs)

pub replace-replace :
    (p : Ptr) (m n : Object) (cs : List Cell) → replace p n (replace p m cs) ≡ replace p n cs
unfolding replace
replace-replace p m n [] = refl
replace-replace p m n (c ∷ cs) = ground (arith, replace-replace p m n cs)

replace-find : (p : Ptr) (o : Object) (cs : List Cell) → find p cs ≡ some o → replace p o cs ≡ cs
unfolding find replace
replace-find p o [] f = cc
replace-find p o (c ∷ cs) f = ground (arith, replace-find p o cs)

-- What taking and dropping a reference do to a live object, neither at the first nor at the last.
module _ (dtor : ObjectType → Ptr → M (Unit {0})) (w : World) (o : Object) (p : Ptr)
    (live : find p w.cells ≡ some o) (not_null : p ≢ 0)
    (valid : valid_type (type_of o.body) ≡ true) where
  pub ref_inc-ok :
      o.ref_count < 2 ^ 31
      → ref_inc p w
        ≡ ok (tt, record w { cells = replace p (record o { ref_count = o.ref_count + 1 }) w.cells })
  unfolding ref_inc ◌>>=◌
  ref_inc-ok h = ground arith

  pub ref_dec-shared :
      1 < o.ref_count
      → o.ref_count < 2 ^ 31
      → ref_dec_with dtor p w
        ≡ ok (
          o.ref_count - 1,
          record w { cells = replace p (record o { ref_count = o.ref_count - 1 }) w.cells },
        )
  unfolding ref_dec_with ◌>>=◌
  ref_dec-shared l h = ground arith

-- A reference that is taken and dropped leaves the segment as it was, whatever the destructors do,
-- and the count returned is the one at first, as long as the count does not pass the range of `int`.
pub ref_dec-ref_inc :
    (dtor : ObjectType → Ptr → M (Unit {0})) (w : World) (o : Object) (p : Ptr)
    → find p w.cells ≡ some o
    → p ≢ 0
    → valid_type (type_of o.body) ≡ true
    → 0 < o.ref_count
    → o.ref_count + 1 < 2 ^ 31
    → (do ref_inc p; ref_dec_with dtor p) w ≡ ok (o.ref_count, w)
unfolding ◌>>=◌
ref_dec-ref_inc dtor w o p live nz valid pos fits =
    rw (ref_inc-ok dtor w o p live nz valid (omega arith)) (
      ref_dec-shared dtor
        (record w { cells = replace p (record o { ref_count = o.ref_count + 1 }) w.cells })
        (record o { ref_count = o.ref_count + 1 }) p (find-replace p o _ w.cells live) nz valid
        (omega arith) fits
      ∙ ground (
        arith,
        replace-replace p (record o { ref_count = o.ref_count + 1 })
            (record o { ref_count = o.ref_count + 1 - 1 }) w.cells,
        replace-find p o w.cells live,
      ))
