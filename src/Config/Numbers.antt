-- ===== src/Config/Numbers.antt =====
-- `strtol` with base 0, as src/utils/config.c calls it, for a `long` of 64 bits.
use arax_g_rpc.Prelude.{
  ℕ, zero, suc, ◌+◌, ◌-◌, ◌*◌, ◌^◌, Bool, false, ◌&&◌, ◌||◌, [], ◌∷◌, Option, none, some, ltb, leb,
  ◌==◌, if◌then◌else◌,
}
use arax_g_rpc.Config.Text.{Str, skip_space}

-- A number: `pos n` is n, and `negsuc n` is -(n + 1).
pub data ℤ : Type 0 where
  pos : ℕ → ℤ
  negsuc : ℕ → ℤ

unfoldable pub negate : ℕ → ℤ
negate zero = pos 0
negate (suc n) = negsuc n

-- Between -m and m - 1
unfoldable pub in_range : ℕ → ℤ → Bool
in_range m (pos n) = ltb n m
in_range m (negsuc n) = ltb n m

-- The value of a digit or a letter.
unfoldable pub digit : ℕ → Option ℕ
digit c =
    if leb b'0' c && leb c b'9'
    then some (c - b'0')
    else if leb b'a' c && leb c b'z'
    then some (c - b'a' + 10)
    else if leb b'A' c && leb c b'Z'
    then some (c - b'A' + 10)
    else none

unfoldable pub is_digit : ℕ → ℕ → Bool
unfolding digit
is_digit base c = elim (digit c) [ none ↦ false | some d ↦ ltb d base ]

unfoldable pub digit_value : ℕ → ℕ
unfolding digit
digit_value c = elim (digit c) [ none ↦ 0 | some d ↦ d ]

-- The digits from here on, after those that make `n`.
unfoldable pub digits : ℕ → ℕ → Str → ℕ
unfolding is_digit digit_value
digits base n [] = n
digits base n (c ∷ s) =
    let rest = digits base (n * base + digit_value c) s in if is_digit base c then rest else n

unfoldable pub starts_digit : ℕ → Str → Bool
starts_digit base [] = false
starts_digit base (c ∷ s) = is_digit base c

-- Whether the number begins with `0x` and a digit behind it.
unfoldable pub is_hex : Str → Bool
unfolding starts_digit
is_hex (c ∷ d ∷ s) = (c == b'0') && ((d == b'x') || (d == b'X')) && starts_digit 16 s
is_hex s = false

unfoldable pub tail2 : Str → Str
tail2 (c ∷ d ∷ s) = s
tail2 s = []

unfoldable pub base_of : Str → ℕ
base_of [] = 10
base_of (c ∷ s) = if c == b'0' then 8 else 10

-- A number without its sign, and none where there is no digit.
unfoldable pub magnitude : Str → Option ℕ
unfolding is_hex tail2 digits starts_digit base_of
magnitude s =
    if is_hex s
    then some (digits 16 0 (tail2 s))
    else if starts_digit (base_of s) s
    then some (digits (base_of s) 0 s)
    else none

unfoldable pub is_sign : ℕ → Str → Bool
is_sign sign [] = false
is_sign sign (c ∷ s) = c == sign

unfoldable pub tail : Str → Str
tail [] = []
tail (c ∷ s) = s

-- `end == start`, ERANGE, or the value
pub data Parsed : Type 0 where
  no_digits : Parsed
  out_of_range : Parsed
  value : ℤ → Parsed

unfoldable pub checked : ℤ → Parsed
unfolding in_range
checked z = if in_range (2 ^ 63) z then value z else out_of_range

unfoldable pub strtol : Str → Parsed
unfolding magnitude is_sign tail checked negate
strtol text =
    let s = skip_space text in
    let negative = is_sign b'-' s in
    let unsigned = if negative || is_sign b'+' s then tail s else s in
    elim (magnitude unsigned) [
      | none ↦ no_digits
      | some n ↦ checked (if negative then negate n else pos n)
    ]
