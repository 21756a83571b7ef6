-- ===== src/Kv.antt =====
-- src/utils/Kv.c and Kv.h: the key-value object of the pipe.
-- `kv` holds the pairs below `pairs`, in order, so that `pairs` is its length; `cap` is ARAX_KV_CAP.
-- Keys and values are pointers, compared by address. The lock is taken and given back by each call.
pub mod Tests
pub mod Laws
use arax_g_rpc.Prelude.{
  ℕ, suc, ◌+◌, Bool, List, [], ◌∷◌, ◌++◌, Option, none, some, ltb, ◌==◌, if◌then◌else◌, length, set,
}
use arax_g_rpc.Prelude.Outcome.{Outcome, ok, abort}

-- `struct Pair`
pub record Pair : Type 0 where
  pub key : ℕ
  pub value : ℕ

abbrev pub Kv : Type 0
Kv = List Pair

unfoldable pub init : Kv
init = []

-- The first loop of `utils_kv_set`: overwrites the value of `key`, and `none` if no pair has it.
overwrite : Kv → ℕ → ℕ → Option Kv
overwrite [] key value = none
overwrite (p ∷ kv) key value =
    if p.key == key
    then some (record p { value = value } ∷ kv)
    else elim (overwrite kv key value) [ none ↦ none | some kv' ↦ some (p ∷ kv') ]

-- `none` is the key that finds no room: "Exceeded ARAX_KV_CAP".
unfoldable pub set_value : ℕ → Kv → ℕ → ℕ → Outcome Kv
unfolding overwrite
set_value cap kv key value = elim (overwrite kv key value) [
  | some kv' ↦ ok kv'
  | none ↦
      if ltb (length kv) cap then ok (kv ++ (record { key = key; value = value } ∷ [])) else abort
]

slot_from : ℕ → Kv → ℕ → Option ℕ
slot_from itr [] key = none
slot_from itr (p ∷ kv) key = if p.key == key then some itr else slot_from (itr + 1) kv key

-- `utils_kv_get` returns the address of the value: here the index of its pair.
unfoldable pub get : Kv → ℕ → Option ℕ
unfolding slot_from
get kv key = slot_from 0 kv key

-- What is read through the address that `utils_kv_get` returns.
pub value_at : Kv → ℕ → Option ℕ
value_at [] i = none
value_at (p ∷ kv) ℕ.zero = some p.value
value_at (p ∷ kv) (suc i) = value_at kv i

unfoldable pub get_value : Kv → ℕ → Option ℕ
unfolding get value_at
get_value kv key = elim (get kv key) [ none ↦ none | some i ↦ value_at kv i ]
