-- ===== src/Config.antt =====
-- src/utils/config.c: the configuration file and its typed reads.
-- A file is its bytes, and `none` where it cannot be opened for reading. `Text` is the C strings, and
-- `Numbers` is `strtol`. The messages on stderr are left out.
pub mod Text
pub mod Numbers
pub mod Path
pub mod Scan
pub mod Lines
pub mod Typed
pub mod Tests
use arax_g_rpc.Prelude.{
  ℕ, zero, suc, ◌+◌, ◌-◌, Bool, true, false, List, [], ◌∷◌, ◌++◌, Option, none, some, ltb, leb,
  ◌==◌, if◌then◌else◌, length,
}
use arax_g_rpc.Prelude.Outcome.{Outcome, ok, fault, no_fuel, ◌>>=◌, ◌>>◌, arax_assert}
use arax_g_rpc.Config.Text.{Str, is_empty, same, skip_space, word, strncpy, string_in}
use arax_g_rpc.Config.Numbers.{
  ℤ, pos, negsuc, in_range, Parsed, no_digits, out_of_range, value, strtol,
}

abbrev pub File : Type 0
File = Option Str

-- `fopen(path, "a+")` makes the file where there is none, and the line goes to its end.
unfoldable pub write_str : File → Str → Str → File
write_str none key text = some (key ++ (32 ∷ (text ++ (10 ∷ []))))
write_str (some s) key text = some (s ++ (key ++ (32 ∷ (text ++ (10 ∷ [])))))

-- `fopen(path, "rw")` opens for reading, so `fprintf` writes nothing; without a file it gets NULL.
unfoldable pub write_long : File → Str → ℤ → Outcome File
write_long none key number = fault
write_long (some s) key number = ok (some s)

-- What `fscanf(conf, "%127s %895s", ckey, cval)` reads: nothing, a key, or a key and a value, with the
-- input left.
pub data Scanned : Type 0 where
  eof : Scanned
  key_only : Str → Scanned
  pair : (key text left : Str) → Scanned

unfoldable pub scan : Str → Scanned
unfolding skip_space word is_empty
scan s =
    let key = word 127 (skip_space s) in
    let text = word 895 (skip_space key.1) in
    if is_empty key.0
    then eof
    else if is_empty text.0
    then key_only key.0
    else pair key.0 text.0 text.1

-- What a round of the loop of `_utils_config_get_str` does with the line read: the value `cval` of the
-- key, none at the end of the input, or the next round. `cval` holds no value before the first is read,
-- and the one before where the line has no value.
unfoldable pub after_scan :
    Str → Option Str → (Str → Str → Outcome (Option Str)) → Scanned → Outcome (Option Str)
unfolding same
after_scan key cval next eof = ok none
after_scan key cval next (key_only ckey) =
    if same ckey key then elim cval [ none ↦ fault | some text ↦ ok (some text) ] else ok none
after_scan key cval next (pair ckey text left) =
    let rest = next text left in if same ckey key then ok (some text) else rest

-- The loop on the input left, at most `n` rounds of it.
unfoldable pub find : ℕ → Str → Option Str → Str → Outcome (Option Str)
unfolding scan after_scan
find zero key cval s = no_fuel
find (suc n) key cval s = after_scan key cval (λ text left. find n key (some text) left) (scan s)

-- `_utils_config_get_str`: the value that is copied to the caller's buffer, and none for the result 0.
unfoldable pub look_up : File → Str → Outcome (Option Str)
unfolding find
look_up none key = ok none
look_up (some s) key = find (suc (length s)) key none s

-- The result of a typed read, what it stores for the caller, and the file after it.
pub record Got (A : Type 0) : Type 0 where
  pub found : ℕ
  pub stored : A
  pub file : File

-- The buffer is untouched, `none`, where there is no value and no default.
unfoldable pub get_str : File → Str → ℕ → Option Str → Outcome (Got (Option Str))
unfolding look_up strncpy write_str
get_str file key size def = do
  text ← look_up file key
  elim text [
    | some t ↦ ok (record { found = 1; stored = some (strncpy size t); file = file })
    | none ↦ elim def [
      | none ↦ ok (record { found = 0; stored = none; file = file })
      | some d ↦
          ok (record { found = 0; stored = some (strncpy size d); file = write_str file key d })
    ]
  ]

-- What `get_long` makes of the number that it read.
unfoldable pub parsed_long : File → Str → ℤ → Parsed → Outcome (Got ℤ)
unfolding write_long
parsed_long file key def (value z) = ok (record { found = 1; stored = z; file = file })
parsed_long file key def no_digits = do
  f ← write_long file key def
  ok (record { found = 0; stored = def; file = f })
parsed_long file key def out_of_range = do
  f ← write_long file key def
  ok (record { found = 0; stored = def; file = f })

-- `strtol` on the 22 bytes of `cval`, which `strncpy` leaves without a NUL where the value is as long.
unfoldable pub copied_long : File → Str → ℤ → Option Str → Outcome (Got ℤ)
unfolding strtol parsed_long
copied_long file key def none = fault
copied_long file key def (some s) = parsed_long file key def (strtol s)

unfoldable pub found_long : File → Str → ℤ → Option Str → Outcome (Got ℤ)
unfolding strncpy string_in copied_long
found_long file key def none = ok (record { found = 0; stored = def; file = file })
found_long file key def (some t) = copied_long file key def (string_in (strncpy 22 t))

unfoldable pub get_long : File → Str → ℤ → Outcome (Got ℤ)
unfolding look_up found_long
get_long file key def = do text ← look_up file key; found_long file key def text

-- A `long` that is read, where the test holds of it, and the default otherwise.
abbrev pub if_fits : (ℤ → Bool) → ℤ → Got ℤ → Got ℤ
if_fits test def g =
    if (if g.found == 0 then false else test g.stored)
    then record g { found = 1 }
    else record g { found = 0; stored = def }

unfoldable pub get_int : File → Str → ℤ → Outcome (Got ℤ)
unfolding get_long in_range
get_int file key def = do g ← get_long file key def; ok (if_fits (in_range 2147483648) def g)

unfoldable pub is_bool : ℤ → Bool
is_bool (pos n) = leb n 1
is_bool (negsuc n) = false

unfoldable pub get_bool : File → Str → ℤ → Outcome (Got ℤ)
unfolding get_int is_bool
get_bool file key def = do g ← get_int file key def; ok (if_fits is_bool def g)

unfoldable pub is_size : ℤ → Bool
is_size (pos n) = true
is_size (negsuc n) = false

unfoldable pub get_size : File → Str → ℤ → Outcome (Got ℤ)
unfolding get_long is_size
get_size file key def = do g ← get_long file key def; ok (if_fits is_size def g)
