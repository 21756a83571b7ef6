-- ===== src/AccelTypes/Laws.antt =====
-- Names and numbers of the accelerator types.
use native.Mathlib.Nat.{zero-add}
use arax_g_rpc.Prelude.{
  ℕ, zero, suc, ◌+◌, ◌≤◌, ◌<◌, ◌≡◌, ◌≢◌, ◌↔◌, refl, ◌∙◌, ◌⊎◌, inl, inr, true, false, List, [], ◌∷◌,
  none, some, arith, get_elem?, length, map, Bool-cases,
}
use arax_g_rpc.AccelTypes.{
  accel_types, types_map, type_to_str, to_lower, same_ignoring_case, find_from, type_from_str,
  valid_type,
}

-- The name of every type leads back to the type, and a number that is no type has no name.
pub from-to :
    (t : ℕ)
    → (t < accel_types) × (type_from_str (type_to_str t) ≡ t)
      ⊎ (accel_types ≤ t) × (type_to_str t ≡ none)
unfolding type_to_str type_from_str
from-to zero = inl (omega arith, refl)
from-to (suc zero) = inl (omega arith, refl)
from-to (suc (suc zero)) = inl (omega arith, refl)
from-to (suc (suc (suc zero))) = inl (omega arith, refl)
from-to (suc (suc (suc (suc zero)))) = inl (omega arith, refl)
from-to (suc (suc (suc (suc (suc zero))))) = inl (omega arith, refl)
from-to (suc (suc (suc (suc (suc (suc zero)))))) = inl (omega arith, refl)
from-to (suc (suc (suc (suc (suc (suc (suc zero))))))) = inl (omega arith, refl)
from-to (suc (suc (suc (suc (suc (suc (suc (suc zero)))))))) = inl (omega arith, refl)
from-to (suc (suc (suc (suc (suc (suc (suc (suc (suc t))))))))) = inr (omega arith, ground arith)

-- `strcasecmp` compares the lower-case forms.
pub same_iff : (a b : List ℕ) → (same_ignoring_case a b ≡ true) ↔ (map to_lower a ≡ map to_lower b)
unfolding same_ignoring_case
same_iff [] [] = (λ _. refl, λ _. refl)
same_iff [] (d ∷ b) = (λ h. cc, λ h. cc)
same_iff (c ∷ a) [] = (λ h. cc, λ h. cc)
same_iff (c ∷ a) (d ∷ b) = ground (arith, same_iff a b)

get_elem?-lt : (ts : List (List ℕ)) (i : ℕ) {t : List ℕ} → get_elem? ts i ≡ some t → i < length ts
get_elem?-lt [] i e = cc
get_elem?-lt (x ∷ ts) zero e = omega arith
get_elem?-lt (x ∷ ts) (suc i) e = omega (arith, get_elem?-lt ts i e)

type_to_str_of_lt : (i : ℕ) → i < accel_types → type_to_str i ≡ get_elem? types_map i
unfolding type_to_str
type_to_str_of_lt i h = ground arith

-- A search finds the name at some place, or no name of the list is the string.
find_from-cases :
    (ts : List (List ℕ)) (cnt : ℕ) (s : List ℕ)
    → ((i : ℕ) × (t : List ℕ) × (find_from cnt ts s ≡ cnt + i)
        × (get_elem? ts i ≡ some t)
        × (map to_lower s ≡ map to_lower t))
      ⊎ (find_from cnt ts s ≡ cnt + length ts)
        × ((i : ℕ) (t : List ℕ) → get_elem? ts i ≡ some t → map to_lower s ≢ map to_lower t)
unfolding find_from
find_from-cases [] cnt s = inr (omega arith, λ i t e. cc)
find_from-cases (t ∷ ts) cnt s = elim (Bool-cases (same_ignoring_case s t)) [
  | inl e ↦ inl (zero, t, rw e (omega arith), refl, (same_iff s t).0 e)
  | inr e ↦ elim (find_from-cases ts (cnt + 1) s) [
    | inl (i, u, f, g, h) ↦ inl (suc i, u, rw e (f ∙ omega arith), g, h)
    | inr (f, n) ↦ inr (rw e (f ∙ omega arith), differs n e)
  ]
]
  where
    differs :
        ((i : ℕ) (u : List ℕ) → get_elem? ts i ≡ some u → map to_lower s ≢ map to_lower u)
        → same_ignoring_case s t ≡ false
        → (i : ℕ) (u : List ℕ) → get_elem? (t ∷ ts) i ≡ some u
        → map to_lower s ≢ map to_lower u
    differs n e zero u g q =
        let same : t ≡ u = cc in
        let found : same_ignoring_case s t ≡ true = (same_iff s t).1 (rw same q) in cc
    differs n e (suc i) u g q = n i u g q

type_to_str-place : (i : ℕ) (t : List ℕ) → type_to_str i ≡ some t → get_elem? types_map i ≡ some t
unfolding type_to_str valid_type
type_to_str-place i t e = ground (arith, e)

-- For every string, `arax_accel_type_from_str` returns a type whose name is the string up to the case
-- of letters, or else the end marker, and that only where no type has such a name.
pub from_str_lem :
    (s : List ℕ)
    → ((t : List ℕ) × (type_to_str (type_from_str (some s)) ≡ some t)
        × (map to_lower s ≡ map to_lower t))
      ⊎ (type_from_str (some s) ≡ accel_types)
        × ((i : ℕ) (t : List ℕ) → type_to_str i ≡ some t → map to_lower s ≢ map to_lower t)
unfolding type_from_str
from_str_lem s = elim (find_from-cases types_map 0 s) [
  | inl (i, t, f, g, h) ↦
      inl (t, rw (f ∙ zero-add i) (type_to_str_of_lt i (get_elem?-lt types_map i g) ∙ g), h)
  | inr (f, n) ↦ inr (f, λ i t e. n i t (type_to_str-place i t e))
]
