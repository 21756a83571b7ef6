-- ===== src/Core/Listing/Fits.antt =====
-- The accelerators that `arax_accel_list` goes through, and what it reads of each.
use arax_g_rpc.Prelude.{
  ℕ, ◌+◌, ◌^◌, ◌<◌, ◌≡◌, ◌≢◌, refl, Bool, true, false, not, ◌&&◌, ◌||◌, List, [], ◌∷◌, Option, none,
  some, Option-cases, inl, inr, ltb, ◌==◌, if◌then◌else◌, arith,
}
use arax_g_rpc.Prelude.Outcome.{ok}
use arax_g_rpc.Core.World.{
  Ptr, Accel, Vaccel, Body, phys, virt, type_of, Object, Cell, World, ◌>>=◌,
}
use arax_g_rpc.Core.World.Memory.{find, has, load, load_phys, load_virt, as_phys, as_virt}
use arax_g_rpc.Core.Object.{valid_type}
use arax_g_rpc.Core.Listing.Refs.{add_ref, find-add_ref_other}
use arax_g_rpc.Core.Listing.{type_at}

-- The type of an accelerator of the kind that is listed.
unfoldable pub kind : Bool → Body → Option ℕ
kind true (phys a) = some a.type
kind false (virt v) = some v.type
kind _ _ = none

body_fits : Bool → Object → Bool
unfolding kind
body_fits physical o = elim (kind physical o.body) [ none ↦ false | some t ↦ true ]

-- An accelerator of the kind lives at the address, and its count can take one reference more.
unfoldable pub fits : Bool → List Cell → Ptr → Bool
unfolding find body_fits
fits physical cs p = elim (find p cs) [
  | none ↦ false
  | some o ↦
      body_fits physical o && not (p == 0) && ltb 0 o.ref_count && ltb (o.ref_count + 1) (2 ^ 31)
]

-- So for each of a list, and none is in it twice.
unfoldable pub all_fit : Bool → List Cell → List Ptr → Bool
unfolding fits has
all_fit physical cs [] = true
all_fit physical cs (p ∷ ps) = fits physical cs p && not (has p ps) && all_fit physical cs ps

unfoldable pub has_type : Bool → ℕ → Body → Bool
unfolding kind
has_type physical type b = elim (kind physical b) [
  | none ↦ false
  | some t ↦ (type == 0) || (t == type)
]

unfoldable pub matches : Bool → ℕ → List Cell → Ptr → Bool
unfolding find has_type
matches physical type cs p = elim (find p cs) [
  | none ↦ false
  | some o ↦ has_type physical type o.body
]

-- Those of a list that are of a type, 0 for every one.
unfoldable pub of_type : Bool → ℕ → List Cell → List Ptr → List Ptr
unfolding matches
of_type physical type cs [] = []
of_type physical type cs (p ∷ ps) =
    let rest = of_type physical type cs ps in if matches physical type cs p then p ∷ rest else rest

fits-add_ref :
    (physical : Bool) (p q : Ptr) (cs : List Cell)
    → (p == q) ≡ false
    → fits physical (add_ref q cs) p ≡ fits physical cs p
unfolding fits
fits-add_ref physical p q cs n = rw (find-add_ref_other p q cs n, fits) refl

pub all_fit-add_ref :
    (physical : Bool) (q : Ptr) (ps : List Ptr) (cs : List Cell)
    → has q ps ≡ false
    → all_fit physical (add_ref q cs) ps ≡ all_fit physical cs ps
unfolding has all_fit
all_fit-add_ref physical q [] cs n = refl
all_fit-add_ref physical q (p ∷ ps) cs n = ground (
  arith,
  fits-add_ref physical p q cs (ground (arith, n)),
  all_fit-add_ref physical q ps cs (ground (arith, n)),
)

matches-add_ref :
    (physical : Bool) (type : ℕ) (p q : Ptr) (cs : List Cell)
    → (p == q) ≡ false
    → matches physical type (add_ref q cs) p ≡ matches physical type cs p
unfolding matches
matches-add_ref physical type p q cs n = rw (find-add_ref_other p q cs n, matches) refl

pub of_type-add_ref :
    (physical : Bool) (type : ℕ) (q : Ptr) (ps : List Ptr) (cs : List Cell)
    → has q ps ≡ false
    → of_type physical type (add_ref q cs) ps ≡ of_type physical type cs ps
unfolding has of_type
of_type-add_ref physical type q [] cs n = refl
of_type-add_ref physical type q (p ∷ ps) cs n = ground (
  arith,
  matches-add_ref physical type p q cs (ground (arith, n)),
  of_type-add_ref physical type q ps cs (ground (arith, n)),
)

has-of_type :
    (physical : Bool) (type : ℕ) (q : Ptr) (ps : List Ptr) (cs : List Cell)
    → has q ps ≡ false
    → has q (of_type physical type cs ps) ≡ false
unfolding has of_type
has-of_type physical type q [] cs n = refl
has-of_type physical type q (p ∷ ps) cs n =
    ground (arith, n, has-of_type physical type q ps cs (ground (arith, n)))

pub all_fit-of_type :
    (physical : Bool) (type : ℕ) (ps : List Ptr) (cs : List Cell)
    → all_fit physical cs ps ≡ true
    → all_fit physical cs (of_type physical type cs ps) ≡ true
unfolding all_fit of_type
all_fit-of_type physical type [] cs h = refl
all_fit-of_type physical type (p ∷ ps) cs h = ground (
  arith,
  h,
  has-of_type physical type p ps cs (ground (arith, h)),
  all_fit-of_type physical type ps cs (ground (arith, h)),
)

-- What `fits` says of the object at the address.
pub record Fitting (physical : Bool) (cs : List Cell) (p : Ptr) : Type 0 where
  pub object : Object
  pub type : ℕ
  pub found : find p cs ≡ some object
  pub is : kind physical object.body ≡ some type
  pub not_null : p ≢ 0
  pub valid : valid_type (type_of object.body) ≡ true
  pub positive : 0 < object.ref_count
  pub small : object.ref_count + 1 < 2 ^ 31

kind-valid :
    (physical : Bool) (b : Body) (t : ℕ) → kind physical b ≡ some t → valid_type (type_of b) ≡ true
unfolding kind valid_type
kind-valid true (phys a) t e = refl
kind-valid false (virt v) t e = refl
kind-valid _ _ t e = cc

pub fits-Fitting :
    (physical : Bool) (cs : List Cell) (p : Ptr) → fits physical cs p ≡ true → Fitting physical cs p
unfolding fits body_fits
fits-Fitting physical cs p h = elim (Option-cases (find p cs)) [
  | inl n ↦ ground (arith, n, h)
  | inr (o, s) ↦ elim (Option-cases (kind physical o.body)) [
    | inl n ↦ ground (arith, n, s, h)
    | inr (t, k) ↦ record {
      object = o;
      type = t;
      found = s;
      is = k;
      not_null = λ e. ground (arith, s, k, e, h);
      valid = kind-valid physical o.body t k;
      positive = ground (arith, s, k, h);
      small = ground (arith, s, k, h);
    }
  ]
]

kind-phys : (b : Body) (t : ℕ) → kind true b ≡ some t → (a : Accel) × (b ≡ phys a) × (a.type ≡ t)
unfolding kind
kind-phys (phys a) t e = (a, refl, cc)
kind-phys _ t e = cc

kind-virt : (b : Body) (t : ℕ) → kind false b ≡ some t → (v : Vaccel) × (b ≡ virt v) × (v.type ≡ t)
unfolding kind
kind-virt (virt v) t e = (v, refl, cc)
kind-virt _ t e = cc

pub type_at_lem :
    (physical : Bool) (w : World) (p : Ptr) (o : Object) (t : ℕ)
    → find p w.cells ≡ some o
    → kind physical o.body ≡ some t
    → type_at physical p w ≡ ok (t, w)
unfolding type_at load_phys load_virt load as_phys as_virt ◌>>=◌
type_at_lem true w p o t f k = let (a, b, e) = kind-phys o.body t k in ground (arith, f, b, e)
type_at_lem false w p o t f k = let (v, b, e) = kind-virt o.body t k in ground (arith, f, b, e)
