-- ===== src/AccelTypes/Tests.antt =====
-- The accelerator types of src/core/arax_accel_types.c at concrete inputs.
use arax_g_rpc.Prelude.{ℕ, ◌≡◌, ◌≢◌, ◌⊎◌, ◌<◌, ◌≤◌, List, [], ◌∷◌, map, none, some}
use arax_g_rpc.AccelTypes.{accel_types, type_to_str, type_from_str, to_lower}
use arax_g_rpc.AccelTypes.Laws.{from-to, from_str_lem}

abbrev upper_gpu : List ℕ
upper_gpu = b'G' ∷ b'P' ∷ b'U' ∷ []

from_str_lem_example :
    ((t : List ℕ) × (type_to_str (type_from_str (some upper_gpu)) ≡ some t)
      × (map to_lower upper_gpu ≡ map to_lower t))
    ⊎ (type_from_str (some upper_gpu) ≡ accel_types)
      × ((i : ℕ) (t : List ℕ) → type_to_str i ≡ some t → map to_lower upper_gpu ≢ map to_lower t)
from_str_lem_example = from_str_lem upper_gpu

from-to_example :
    (3 < accel_types) × (type_from_str (type_to_str 3) ≡ 3)
    ⊎ (accel_types ≤ 3) × (type_to_str 3 ≡ none)
from-to_example = from-to 3
