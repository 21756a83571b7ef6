-- ===== src/Config/Text.antt =====
-- C strings as src/utils/config.c reads and copies them: the bytes before the closing NUL.
use arax_g_rpc.Prelude.{
  ℕ, zero, suc, ◌-◌, Bool, true, false, ◌&&◌, ◌||◌, List, [], ◌∷◌, ◌++◌, Option, none, some, leb,
  ◌==◌, if◌then◌else◌, length, take, replicate,
}

abbrev pub Str : Type 0
Str = List ℕ

-- `isspace` of the C locale
unfoldable pub is_space : ℕ → Bool
is_space c = (c == 32) || (leb 9 c && leb c 13)

unfoldable pub is_empty : Str → Bool
is_empty [] = true
is_empty (c ∷ s) = false

unfoldable pub same : Str → Str → Bool
same [] [] = true
same [] (d ∷ t) = false
same (c ∷ s) [] = false
same (c ∷ s) (d ∷ t) = (c == d) && same s t

unfoldable pub skip_space : Str → Str
skip_space [] = []
skip_space (c ∷ s) = if is_space c then skip_space s else c ∷ s

-- `%<n>s` behind the white space: up to `n` bytes, and the input left.
unfoldable pub word : ℕ → Str → Str × Str
word zero s = ([], s)
word (suc n) [] = ([], [])
word (suc n) (c ∷ s) =
    let rest = word n s in if is_space c then ([], c ∷ s) else (c ∷ rest.0, rest.1)

-- `strncpy` into a buffer of `n` bytes, NULs included.
unfoldable pub strncpy : ℕ → Str → Str
strncpy n s = take n s ++ replicate (n - length s) 0

-- The string in a buffer, and none where the buffer has no NUL.
unfoldable pub string_in : Str → Option Str
string_in [] = none
string_in (c ∷ s) =
    let rest = string_in s in
    if c == 0 then some [] else elim rest [ none ↦ none | some t ↦ some (c ∷ t) ]
