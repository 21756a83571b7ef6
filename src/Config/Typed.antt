-- ===== src/Config/Typed.antt =====
-- What the typed reads of src/utils/config.c store.
use arax_g_rpc.Prelude.{
  ℕ, ◌^◌, ◌||◌, subst, ap, sym, ◌∙◌, ◌≡◌, ◌≢◌, refl, ◌⊎◌, inl, inr, Bool, true, false, Option, none,
  some, if◌then◌else◌, Bool-cases, arith,
}
use arax_g_rpc.Prelude.Outcome.{ok-eq, Outcome, ok, abort, fault, blocked, no_fuel, ◌>>=◌}
use arax_g_rpc.Config.Text.{Str, skip_space, strncpy, string_in}
use arax_g_rpc.Config.Numbers.{
  ℤ, pos, negsuc, negate, checked, in_range, Parsed, no_digits, out_of_range, value, magnitude,
  is_sign, tail, strtol,
}
use arax_g_rpc.Config.{
  File, Got, look_up, write_long, parsed_long, copied_long, found_long, get_long, get_int, get_bool,
  get_size, if_fits, is_bool, is_size,
}

-- `strtol` reads the number from the 22 bytes of the value under the key.
abbrev pub Stands : File → Str → ℤ → Type 0
Stands file key z =
    (text s : Str) × (look_up file key ≡ ok (some text))
    × (string_in (strncpy 22 text) ≡ some s)
    × (strtol s ≡ value z)

-- A number that stands in the file under the key and passes the test is stored, with the result 1; where
-- none does the default is stored, with the result 0. The file stays.
abbrev pub Reads : (ℤ → Bool) → File → Str → ℤ → Got ℤ → Type 0
Reads test file key def g =
    (g.file ≡ file)
    × (((g.found ≡ 1) × (test g.stored ≡ true) × Stands file key g.stored)
        ⊎ ((g.found ≡ 0) × (g.stored ≡ def) × ((z : ℤ) → Stands file key z → test z ≡ false)))

checked_range : (z : ℤ) {y : ℤ} → checked z ≡ value y → in_range (2 ^ 63) y ≡ true
unfolding checked
checked_range z {y} e = elim (Bool-cases (in_range (2 ^ 63) z)) [
  | inl q ↦ ground (arith, e, q)
  | inr q ↦ absurd (ground (arith, e, q))
]

magnitude_range :
    (o : Option ℕ) (negative : Bool) {z : ℤ}
    → (elim o [ none ↦ no_digits | some n ↦ checked (if negative then negate n else pos n) ])
      ≡ value z
    → in_range (2 ^ 63) z ≡ true
magnitude_range none negative e = cc
magnitude_range (some n) negative e = checked_range (if negative then negate n else pos n) e

strtol_range : (s : Str) {z : ℤ} → strtol s ≡ value z → in_range (2 ^ 63) z ≡ true
unfolding strtol
strtol_range text {z} e =
    let s = skip_space text in
    let negative = is_sign b'-' s in
    magnitude_range (magnitude (if negative || is_sign b'+' s then tail s else s)) negative e

write_long-keeps :
    (file : File) (key : Str) (def : ℤ) {g : Got ℤ} (test : ℤ → Bool)
    → ((z : ℤ) → Stands file key z → test z ≡ false)
    → (do f ← write_long file key def; ok (record { found = 0; stored = def; file = f })) ≡ ok g
    → Reads test file key def g
unfolding write_long
write_long-keeps none key def test no_number e = cc
write_long-keeps (some s) key def test no_number e =
    subst (Reads test (some s) key def) (ok-eq e) (refl, inr (refl, refl, no_number))

-- The text under a key, its first bytes and what `strtol` makes of them are determined.
Stands-parsed :
    (file : File) (key text s : Str) {p : Parsed} (z : ℤ)
    → look_up file key ≡ ok (some text)
    → string_in (strncpy 22 text) ≡ some s
    → strtol s ≡ p
    → Stands file key z
    → p ≡ value z
Stands-parsed file key text s z l c q (text', s', l', c', q') =
    let t : text ≡ text' = cc in let u : s ≡ s' = ground (arith, t, c, c') in cc

module _ (file : File) (key : Str) (def : ℤ) where
  parsed_long-Reads :
      (text s : Str) (p : Parsed) {g : Got ℤ}
      → look_up file key ≡ ok (some text)
      → string_in (strncpy 22 text) ≡ some s
      → strtol s ≡ p
      → parsed_long file key def p ≡ ok g
      → Reads (in_range (2 ^ 63)) file key def g
  unfolding parsed_long
  parsed_long-Reads text s no_digits l c q e =
      write_long-keeps file key def (in_range (2 ^ 63))
        (λ z st. absurd (digits (Stands-parsed file key text s z l c q st))) e
    where
      digits : {z : ℤ} → no_digits ≢ value z
      digits h = cc
  parsed_long-Reads text s out_of_range l c q e =
      write_long-keeps file key def (in_range (2 ^ 63))
        (λ z st. absurd (within (Stands-parsed file key text s z l c q st))) e
    where
      within : {z : ℤ} → out_of_range ≢ value z
      within h = cc
  parsed_long-Reads text s (value z) l c q e =
      subst (Reads (in_range (2 ^ 63)) file key def) (ok-eq e)
        (refl, inl (refl, strtol_range s q, (text, s, l, c, q)))

  copied_long-Reads :
      (text : Str) (o : Option Str) {g : Got ℤ}
      → look_up file key ≡ ok (some text)
      → string_in (strncpy 22 text) ≡ o
      → copied_long file key def o ≡ ok g
      → Reads (in_range (2 ^ 63)) file key def g
  unfolding copied_long
  copied_long-Reads text none l c e = cc
  copied_long-Reads text (some s) l c e = parsed_long-Reads text s (strtol s) l c refl e

  found_long-Reads :
      (o : Option Str) {g : Got ℤ}
      → look_up file key ≡ ok o
      → found_long file key def o ≡ ok g
      → Reads (in_range (2 ^ 63)) file key def g
  unfolding found_long
  found_long-Reads none l e =
      subst (Reads (in_range (2 ^ 63)) file key def) (ok-eq e)
        (refl, inr (refl, refl, λ z (text, s, l', c, q). absurd (nothing l')))
    where
      nothing : {text : Str} → look_up file key ≢ ok (some text)
      nothing l' = cc
  found_long-Reads (some text) l e = copied_long-Reads text (string_in (strncpy 22 text)) l refl e

  long-Reads :
      (m : Outcome (Option Str)) {g : Got ℤ}
      → look_up file key ≡ m
      → (do text ← m; found_long file key def text) ≡ ok g
      → Reads (in_range (2 ^ 63)) file key def g
  long-Reads (ok o) l e = found_long-Reads o l e
  long-Reads abort l e = cc
  long-Reads fault l e = cc
  long-Reads blocked l e = cc
  long-Reads no_fuel l e = cc

  get_long-Reads :
      {g : Got ℤ} → get_long file key def ≡ ok g → Reads (in_range (2 ^ 63)) file key def g
  unfolding get_long
  get_long-Reads e = long-Reads (look_up file key) refl e

  -- A number that stands under the key is the one that was stored, if one was.
  Stands-stored : (g : Got ℤ) (z : ℤ) → Stands file key g.stored → Stands file key z → g.stored ≡ z
  Stands-stored g z (text, s, l, c, q) st =
      let e : value g.stored ≡ value z = Stands-parsed file key text s z l c q st in cc

  if_fits-Reads :
      (old test : ℤ → Bool) (g : Got ℤ)
      → ((z : ℤ) → Stands file key z → test z ≡ true → old z ≡ true)
      → Reads old file key def g
      → Reads test file key def (if_fits test def g)
  if_fits-Reads old test g wider (same, inl (f, o, st)) = elim (Bool-cases (test g.stored)) [
    | inl t ↦ rw (f, t) (same, inl (refl, t, st))
    | inr t ↦
        rw (f, t) (same, inr (refl, refl, λ z st'. ap test (sym (Stands-stored g z st st')) ∙ t))
  ]
  if_fits-Reads old test g wider (same, inr (f, d, no_number)) = rw f (
    same,
    inr (
      refl,
      refl,
      λ z st. elim (Bool-cases (test z)) [
        | inl t ↦ absurd (contra (no_number z st) (wider z st t))
        | inr t ↦ t
      ],
    ),
  )
    where
      contra : {z : ℤ} → old z ≡ false → old z ≡ true → ⊥
      contra a b = cc

  -- Whatever `strtol` reads is in the range of a `long`.
  Stands-range : (z : ℤ) → Stands file key z → in_range (2 ^ 63) z ≡ true
  Stands-range z (text, s, l, c, q) = strtol_range s q

bool-range : (z : ℤ) → is_bool z ≡ true → in_range (2 ^ 31) z ≡ true
unfolding is_bool in_range
bool-range (pos n) e = ground (arith, e)
bool-range (negsuc n) e = cc

parsed_long-returns :
    (s key : Str) (def : ℤ) (p : Parsed) → (g : Got ℤ) × (parsed_long (some s) key def p ≡ ok g)
unfolding parsed_long write_long
parsed_long-returns s key def (value z) = (_, refl)
parsed_long-returns s key def no_digits = (_, refl)
parsed_long-returns s key def out_of_range = (_, refl)

get_long-returns :
    (file : File) (key : Str) (def : ℤ) (o : Option Str)
    → look_up file key ≡ ok o
    → ((text : Str) → o ≡ some text → (t : Str) × (string_in (strncpy 22 text) ≡ some t))
    → (g : Got ℤ) × (get_long file key def ≡ ok g)
unfolding get_long found_long copied_long look_up
get_long-returns none key def o l h = (_, refl)
get_long-returns (some s) key def none l h =
    (record { found = 0; stored = def; file = some s }, rw l refl)
get_long-returns (some s) key def (some text) l h =
    let (t, c) = h text refl in
    let (g, e) = parsed_long-returns s key def (strtol t) in (g, rw (l, c) e)

-- A call returns, and what it stores is as `Reads` says.
abbrev pub Returns : (ℤ → Bool) → File → Str → ℤ → Outcome (Got ℤ) → Type 0
Returns test file key def m = (g : Got ℤ) × (m ≡ ok g) × Reads test file key def g

-- Where the look-up of a key returns, and the first 22 bytes of the value, if there is one, hold its
-- end, the typed reads of numbers return: they store the number that `strtol` reads from the value
-- under the key, with the result 1, exactly where there is one in the range of the type: 64 bits with
-- a sign, 32 bits with a sign, 0 or 1, or not negative. Where there is none the result is 0 and the
-- default is stored. No read changes the file.
pub typed_values :
    (file : File) (key : Str) (def : ℤ) (o : Option Str)
    → look_up file key ≡ ok o
    → ((text : Str) → o ≡ some text → (t : Str) × (string_in (strncpy 22 text) ≡ some t))
    → Returns (in_range (2 ^ 63)) file key def (get_long file key def)
      × Returns (in_range (2 ^ 31)) file key def (get_int file key def)
      × Returns is_bool file key def (get_bool file key def)
      × Returns is_size file key def (get_size file key def)
unfolding get_int get_bool get_size
typed_values file key def o l h =
    let (g, e) = get_long-returns file key def o l h in
    let long : Reads (in_range (2 ^ 63)) file key def g = get_long-Reads file key def e in
    let n : Got ℤ = if_fits (in_range (2 ^ 31)) def g in
    let int : Reads (in_range (2 ^ 31)) file key def n =
      if_fits-Reads file key def (in_range (2 ^ 63)) (in_range (2 ^ 31)) g
        (λ z st t. Stands-range file key def z st) long in
    (
      (g, e, long),
      (n, rw e refl, int),
      (
        if_fits is_bool def n,
        rw e refl,
        if_fits-Reads file key def (in_range (2 ^ 31)) is_bool n (λ z st t. bool-range z t) int,
      ),
      (
        if_fits is_size def g,
        rw e refl,
        if_fits-Reads file key def (in_range (2 ^ 63)) is_size g
            (λ z st t. Stands-range file key def z st) long,
      ),
    )
