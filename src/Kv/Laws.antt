-- ===== src/Kv/Laws.antt =====
-- A `utils_kv_s` is a finite map of at most ARAX_KV_CAP keys.
use arax_g_rpc.Prelude.{
  ℕ, zero, suc, ◌+◌, ◌≤◌, ◌≡◌, refl, ◌∙◌, ap, ◌↔◌, ◌⊎◌, inl, inr, Bool, true, false, ◌||◌, [], ◌∷◌,
  ◌++◌, Option, none, some, arith, ltb, ◌==◌, if◌then◌else◌, length, length-append, Bool-cases,
  Option-cases,
}
use arax_g_rpc.Prelude.Outcome.{ok, abort}
use arax_g_rpc.Kv.{Kv, overwrite, set_value, slot_from, get, value_at, get_value}

-- The map that the pairs stand for: the first pair with the key counts.
pub lookup : Kv → ℕ → Option ℕ
lookup [] key = none
lookup (p ∷ kv) key = if p.key == key then some p.value else lookup kv key

unfoldable pub has : ℕ → Kv → Bool
has key [] = false
has key (p ∷ kv) = (p.key == key) || has key kv

-- No key twice.
abbrev pub Distinct : Kv → Type 0
Distinct [] = Unit {0}
Distinct (p ∷ kv) = (has p.key kv ≡ false) × Distinct kv

pub record IsValid (cap : ℕ) (kv : Kv) : Type 0 where
  pub fits : length kv ≤ cap
  pub distinct : Distinct kv

-- The value behind the index that the loop finds, counted from `itr`.
slot-lookup :
    (kv : Kv) (key itr : ℕ)
    → (slot_from itr kv key ≡ none) × (lookup kv key ≡ none)
      ⊎ ((i : ℕ) × (slot_from itr kv key ≡ some (itr + i)) × (lookup kv key ≡ value_at kv i))
unfolding slot_from lookup value_at
slot-lookup [] key itr = inl (refl, refl)
slot-lookup (p ∷ kv) key itr = elim (Bool-cases (p.key == key)) [
  | inl e ↦ inr (zero, rw e (ap some (omega arith)), rw e)
  | inr e ↦ elim (slot-lookup kv key (itr + 1)) [
    | inl (a, b) ↦ inl (rw e a, rw e b)
    | inr (i, a, b) ↦ inr (suc i, rw e (a ∙ ap some (omega arith)), rw e b)
  ]
]

-- `utils_kv_get` finds the value of the first pair with the key, and NULL if there is none.
pub get_value-lookup : (kv : Kv) (key : ℕ) → get_value kv key ≡ lookup kv key
unfolding get_value get
get_value-lookup kv key = elim (slot-lookup kv key 0) [
  | inl (a, b) ↦ rw (get_value, get, a, b)
  | inr (i, a, b) ↦ rw (get_value, get, a, b) (ap (value_at kv) (omega arith))
]

overwrite-lookup :
    (kv : Kv) (key value j : ℕ) (kv' : Kv)
    → overwrite kv key value ≡ some kv'
    → lookup kv' j ≡ (if key == j then some value else lookup kv j)
unfolding overwrite lookup
overwrite-lookup [] key value j kv' e = cc
overwrite-lookup (p ∷ kv) key value j kv' e = elim (Option-cases (overwrite kv key value)) [
  | inl n ↦ ground arith
  | inr (r, s) ↦ ground (arith, overwrite-lookup kv key value j r s)
]

overwrite-has :
    (kv : Kv) (key value j : ℕ) (kv' : Kv)
    → overwrite kv key value ≡ some kv'
    → (has j kv' ≡ has j kv) × (length kv' ≡ length kv) × (has key kv ≡ true)
unfolding overwrite has
overwrite-has [] key value j kv' e = cc
overwrite-has (p ∷ kv) key value j kv' e = elim (Option-cases (overwrite kv key value)) [
  | inl n ↦ ground arith
  | inr (r, s) ↦ ground (arith, overwrite-has kv key value j r s)
]

overwrite-Distinct :
    (kv : Kv) (key value : ℕ) (kv' : Kv)
    → overwrite kv key value ≡ some kv'
    → Distinct kv
    → Distinct kv'
unfolding overwrite has
overwrite-Distinct [] key value kv' e d = cc
overwrite-Distinct (p ∷ kv) key value kv' e d = elim (Option-cases (overwrite kv key value)) [
  | inl n ↦ let q : kv' ≡ record p { value = value } ∷ kv = ground arith in rw q (d.0, d.1)
  | inr (r, s) ↦ elim (Bool-cases (p.key == key)) [
    | inl k ↦ let q : kv' ≡ record p { value = value } ∷ kv = ground arith in rw q (d.0, d.1)
    | inr k ↦
        let q : kv' ≡ p ∷ r = ground arith in
        rw q (
          ground (arith, overwrite-has kv key value p.key r s),
          overwrite-Distinct kv key value r s d.1,
        )
  ]
]

overwrite-none : (kv : Kv) (key value : ℕ) → (overwrite kv key value ≡ none) ↔ (has key kv ≡ false)
unfolding overwrite has
overwrite-none [] key value = (λ _. refl, λ _. refl)
overwrite-none (p ∷ kv) key value = ground (arith, overwrite-none kv key value)

lookup-append :
    (kv : Kv) (key value j : ℕ)
    → has key kv ≡ false
    → lookup (kv ++ (record { key = key; value = value } ∷ [])) j
      ≡ (if key == j then some value else lookup kv j)
unfolding lookup has
lookup-append [] key value j h = ground arith
lookup-append (p ∷ kv) key value j h = ground (arith, lookup-append kv key value j)

has-append :
    (kv : Kv) (key value j : ℕ)
    → has j (kv ++ (record { key = key; value = value } ∷ [])) ≡ (has j kv || (key == j))
unfolding has
has-append [] key value j = ground arith
has-append (p ∷ kv) key value j = ground (arith, has-append kv key value j)

append-Distinct :
    (kv : Kv) (key value : ℕ)
    → has key kv ≡ false
    → Distinct kv
    → Distinct (kv ++ (record { key = key; value = value } ∷ []))
unfolding has
append-Distinct [] key value h d = (refl, tt)
append-Distinct (p ∷ kv) key value h (f, d) =
    (ground (arith, has-append kv key value p.key), append-Distinct kv key value (ground arith) d)

lookup_of_not_has : (kv : Kv) (key : ℕ) → has key kv ≡ false → lookup kv key ≡ none
unfolding lookup has
lookup_of_not_has [] key h = refl
lookup_of_not_has (p ∷ kv) key h = ground (arith, lookup_of_not_has kv key)

-- On a map of distinct keys within ARAX_KV_CAP, a set either returns a map that is again so, that
-- has the value at the key and is unchanged at every other; or it aborts, and then the map is full
-- and lacks the key.
pub set_value_lem :
    {cap : ℕ} {kv : Kv} (key value : ℕ)
    → IsValid cap kv
    → ((kv' : Kv) × (set_value cap kv key value ≡ ok kv')
        × IsValid cap kv'
        × ((j : ℕ) → get_value kv' j ≡ (if key == j then some value else get_value kv j)))
      ⊎ (set_value cap kv key value ≡ abort) × (length kv ≡ cap) × (get_value kv key ≡ none)
unfolding set_value
set_value_lem {cap} {kv} key value v = elim (Option-cases (overwrite kv key value)) [
  | inr (r, s) ↦ inl (
    r,
    ground arith,
    record {
      fits = omega (arith, (overwrite-has kv key value key r s).1);
      distinct = overwrite-Distinct kv key value r s v.distinct;
    },
    λ j. rw (get_value-lookup, get_value-lookup) (overwrite-lookup kv key value j r s),
  )
  | inl n ↦ elim (Bool-cases (ltb (length kv) cap)) [
    | inl room ↦ inl (
      kv ++ (record { key = key; value = value } ∷ []),
      ground arith,
      record {
        fits = ground (arith, length-append kv (record { key = key; value = value } ∷ []));
        distinct = append-Distinct kv key value ((overwrite-none kv key value).0 n) v.distinct;
      },
      λ j.
          rw (get_value-lookup, get_value-lookup)
            (lookup-append kv key value j ((overwrite-none kv key value).0 n)),
    )
    | inr full ↦ inr (
      ground arith,
      ground (arith, v.fits),
      rw get_value-lookup (lookup_of_not_has kv key ((overwrite-none kv key value).0 n)),
    )
  ]
]
