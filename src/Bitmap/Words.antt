-- ===== src/Bitmap/Words.antt =====
-- `uint64_t` as src/utils/bitmap.c uses it: sixty-four bits, the least significant first.
use arax_g_rpc.Prelude.{
  ℕ, zero, suc, ◌-◌, Bool, true, false, not, ◌&&◌, ◌||◌, List, [], ◌∷◌, ◌++◌, take, replicate,
}

abbrev pub Word : Type 0
Word = List Bool

abbrev pub zeros : Word
zeros = replicate 64 false

-- `(uint64_t) -1`, which is BITMAP_NOT_FOUND too
abbrev pub ones : Word
ones = replicate 64 true

-- `(1 << n) - 1`
abbrev pub low_ones : ℕ → Word
low_ones n = replicate n true ++ replicate (64 - n) false

-- `-1 << n`
abbrev pub high_ones : ℕ → Word
high_ones n = replicate n false ++ replicate (64 - n) true

-- `&`
unfoldable pub and : Word → Word → Word
and [] v = []
and (a ∷ w) [] = []
and (a ∷ w) (b ∷ v) = (a && b) ∷ and w v

-- `|`
unfoldable pub or : Word → Word → Word
or [] v = []
or (a ∷ w) [] = []
or (a ∷ w) (b ∷ v) = (a || b) ∷ or w v

-- `~`
unfoldable pub complement : Word → Word
complement [] = []
complement (a ∷ w) = not a ∷ complement w

-- `<< 1`
abbrev pub shl : Word → Word
shl w = false ∷ take 63 w

-- `<< n`
unfoldable pub shl_by : ℕ → Word → Word
shl_by zero w = w
shl_by (suc n) w = shl (shl_by n w)

-- `__builtin_popcountl`
unfoldable pub popcount : Word → ℕ
popcount [] = 0
popcount (true ∷ w) = suc (popcount w)
popcount (false ∷ w) = popcount w

-- The zeros above the highest one, `run` of them so far.
unfoldable pub clz_after : ℕ → Word → ℕ
clz_after run [] = run
clz_after run (true ∷ w) = clz_after 0 w
clz_after run (false ∷ w) = clz_after (suc run) w

-- `__builtin_clzl`
unfoldable pub clz : Word → ℕ
unfolding clz_after
clz = clz_after 0

-- `!w`
unfoldable pub is_zero : Word → Bool
is_zero [] = true
is_zero (a ∷ w) = not a && is_zero w

-- `w == -1`
unfoldable pub is_full : Word → Bool
is_full [] = true
is_full (a ∷ w) = a && is_full w
