-- ===== src/AccelTypes.antt =====
-- src/core/arax_accel_types.c and the enumeration `arax_accel_type_e` of include/arax_types.h.
-- A type is its number; a string is the list of its bytes, without the closing NUL.
pub mod Tests
pub mod Laws
use Prim.Native.Char.{code}
use Prim.Native.String.{String}
use arax_g_rpc.Prelude.{
  ℕ, zero, suc, ◌+◌, Bool, true, false, ◌&&◌, List, [], ◌∷◌, Option, none, some, ltb, leb, ◌==◌,
  if◌then◌else◌, get_elem?,
}

-- The bytes of an ASCII literal.
abbrev pub codes : String → List ℕ
codes String.[] = []
codes (String.◌∷◌ c s) = code c ∷ codes s

-- ANY and CPU of `arax_accel_type_e`, and its end marker ARAX_ACCEL_TYPES.
abbrev pub any : ℕ
any = 0

abbrev pub cpu : ℕ
cpu = 3

abbrev pub accel_types : ℕ
accel_types = 9

-- The strings of `types_map`; the type of each is its place.
abbrev pub types_map : List (List ℕ)
types_map =
    codes "any"
    ∷ codes "gpu"
    ∷ codes "gpu_soft"
    ∷ codes "cpu"
    ∷ codes "sda"
    ∷ codes "nano_arm"
    ∷ codes "nano_core"
    ∷ codes "OpenCL"
    ∷ codes "HIP"
    ∷ []

unfoldable pub valid_type : ℕ → Bool
valid_type t = ltb t accel_types

unfoldable pub type_to_str : ℕ → Option (List ℕ)
unfolding valid_type
type_to_str t = if valid_type t then get_elem? types_map t else none

-- `tolower` of the C locale
pub to_lower : ℕ → ℕ
to_lower c = if leb b'A' c && leb c b'Z' then c + 32 else c

-- `!strcasecmp(a, b)`
pub same_ignoring_case : List ℕ → List ℕ → Bool
same_ignoring_case [] [] = true
same_ignoring_case [] (d ∷ b) = false
same_ignoring_case (c ∷ a) [] = false
same_ignoring_case (c ∷ a) (d ∷ b) = (to_lower c == to_lower d) && same_ignoring_case a b

-- The loop from `cnt` over what is left of `types_map`.
find_from : ℕ → List (List ℕ) → List ℕ → ℕ
find_from cnt [] s = cnt
find_from cnt (t ∷ ts) s =
    let rest = find_from (cnt + 1) ts s in if same_ignoring_case s t then cnt else rest

unfoldable pub type_from_str : Option (List ℕ) → ℕ
unfolding find_from same_ignoring_case to_lower
type_from_str none = accel_types
type_from_str (some s) = find_from 0 types_map s
