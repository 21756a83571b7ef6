-- ===== src/Kv/Tests.antt =====
-- The map of src/utils/Kv.c at concrete inputs.
use arax_g_rpc.Prelude.{ℕ, ◌≡◌, ◌⊎◌, refl, [], ◌∷◌, none, some, ◌==◌, if◌then◌else◌, arith, length}
use arax_g_rpc.Prelude.Outcome.{ok, abort}
use arax_g_rpc.Kv.{Kv, set_value, get_value}
use arax_g_rpc.Kv.Laws.{has, IsValid, set_value_lem}

abbrev two : Kv
two = record { key = 4; value = 40 } ∷ record { key = 6; value = 60 } ∷ []

two-IsValid : IsValid 3 two
unfolding has
two-IsValid = record { fits = omega arith; distinct = (refl, (refl, tt)) }

set_value_lem_example :
    ((kv' : Kv) × (set_value 3 two 6 61 ≡ ok kv')
      × IsValid 3 kv'
      × ((j : ℕ) → get_value kv' j ≡ (if 6 == j then some 61 else get_value two j)))
    ⊎ (set_value 3 two 6 61 ≡ abort) × (length two ≡ 3) × (get_value two 6 ≡ none)
set_value_lem_example = set_value_lem 6 61 two-IsValid
