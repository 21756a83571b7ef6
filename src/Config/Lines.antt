-- ===== src/Config/Lines.antt =====
-- A file of lines, as src/utils/config.c writes and reads it.
use arax_g_rpc.Prelude.{
  ℕ, zero, suc, ◌≤◌, ◌<◌, ◌≡◌, refl, ap, ◌∙◌, sym, Bool, true, false, List, [], ◌∷◌, ◌++◌, Option,
  none, some, length, length-append, if◌then◌else◌, Bool-cases, inl, inr, arith,
}
use mathlib.Core.List.{append-nil, append_assoc}
use arax_g_rpc.Prelude.Outcome.{ok}
use arax_g_rpc.Config.Text.{Str, is_space, is_empty, same, skip_space, word, strncpy}
use arax_g_rpc.Config.Scan.{NoSpace, IsWord, word-append, same_iff}
use arax_g_rpc.Config.{eof, pair, scan, after_scan, find, look_up, write_str, get_str}

pub record Entry : Type 0 where
  pub key : Str
  pub text : Str

abbrev pub line : Entry → Str
line e = e.key ++ (32 ∷ (e.text ++ (10 ∷ [])))

-- The lines of a file.
abbrev pub print : List Entry → Str
print [] = []
print (e ∷ es) = line e ++ print es

-- The value of the first entry with the key.
abbrev pub first_of : Str → List Entry → Option Str
first_of key [] = none
first_of key (e ∷ es) = if same e.key key then some e.text else first_of key es

-- Keys and values that the reads take whole.
unfoldable pub AreEntries : List Entry → Type 0
AreEntries [] = Unit {0}
AreEntries (e ∷ es) = IsWord 127 e.key × IsWord 895 e.text × AreEntries es

skip-word : (s rest : Str) → is_empty s ≡ false → NoSpace s → skip_space (s ++ rest) ≡ s ++ rest
unfolding is_empty NoSpace skip_space
skip-word [] rest h w = cc
skip-word (c ∷ s) rest h w = rw w.0 refl

line-append : (e : Entry) (rest : Str) → line e ++ rest ≡ e.key ++ (32 ∷ (e.text ++ (10 ∷ rest)))
line-append e rest =
    append_assoc e.key (32 ∷ (e.text ++ (10 ∷ []))) rest
    ∙ ap (λ s. e.key ++ (32 ∷ s)) (append_assoc e.text (10 ∷ []) rest)

-- One line is read, and the input left is its newline and what follows.
scan-line :
    (s : Str) (e : Entry) (rest : Str)
    → IsWord 127 e.key
    → IsWord 895 e.text
    → skip_space s ≡ skip_space (line e ++ rest)
    → scan s ≡ pair e.key e.text (10 ∷ rest)
unfolding scan is_space skip_space
scan-line s e rest k t h =
    let start : skip_space s ≡ e.key ++ (32 ∷ (e.text ++ (10 ∷ rest))) =
      h
      ∙ ap skip_space (line-append e rest)
      ∙ skip-word e.key (32 ∷ (e.text ++ (10 ∷ rest))) k.0 k.2 in
    rw
      (
        start,
        word-append 127 e.key 32 (e.text ++ (10 ∷ rest)) k.1 k.2 refl,
        skip-word e.text (10 ∷ rest) t.0 t.2,
        word-append 895 e.text 10 rest t.1 t.2 refl,
        k.0,
        t.0,
      )
      refl

scan-end : (s : Str) → skip_space s ≡ [] → scan s ≡ eof
unfolding scan word is_empty
scan-end s h = rw h refl

ok_if :
    (b : Bool) (x : Str) (y : Option Str)
    → (if b then ok (some x) else ok y) ≡ ok (if b then some x else y)
ok_if true x y = refl
ok_if false x y = refl

-- What the loop finds is the first entry with the key.
find-print :
    (es : List Entry) (n : ℕ) (key : Str) (cval : Option Str) (s : Str)
    → AreEntries es
    → length es < n
    → skip_space s ≡ skip_space (print es)
    → find n key cval s ≡ ok (first_of key es)
unfolding find AreEntries after_scan skip_space is_space
find-print [] zero key cval s w h e = absurd (omega arith)
find-print (x ∷ es) zero key cval s w h e = absurd (omega arith)
find-print [] (suc n) key cval s w h e = rw (scan-end s e) refl
find-print (x ∷ es) (suc n) key cval s w h e =
    let rest = find-print es n key (some x.text) (10 ∷ print es) w.2 (omega (arith, h)) refl in
    rw (scan-line s x (print es) w.0 w.1 e, rest) (ok_if (same x.key key) x.text (first_of key es))

length-print : (es : List Entry) → length es ≤ length (print es)
length-print [] = omega arith
length-print (e ∷ es) = omega (
  arith,
  length-print es,
  length-append (line e) (print es),
  length-append e.key (32 ∷ (e.text ++ (10 ∷ []))),
)

-- In a file of lines, each a key of at most 127 bytes and a value of at most 895 without white space, the
-- look-up of a key finds the value of the first line with that key, and nothing where no line has it.
pub look_up-print :
    (es : List Entry) (key : Str)
    → AreEntries es
    → look_up (some (print es)) key ≡ ok (first_of key es)
unfolding look_up
look_up-print es key w =
    find-print es (suc (length (print es))) key none (print es) w (omega (arith, length-print es))
      refl

print-append : (es : List Entry) (e : Entry) → print es ++ line e ≡ print (es ++ (e ∷ []))
print-append [] e = sym (append-nil (line e))
print-append (x ∷ es) e =
    append_assoc (line x) (print es) (line e) ∙ ap (λ s. line x ++ s) (print-append es e)

first_of-append :
    (es : List Entry) (e : Entry) (key : Str)
    → first_of key es ≡ none
    → first_of key (es ++ (e ∷ [])) ≡ (if same e.key key then some e.text else none)
first_of-append [] e key h = refl
first_of-append (x ∷ es) e key h = elim (Bool-cases (same x.key key)) [
  | inl q ↦ absurd (ground (arith, q, h))
  | inr q ↦ rw q (first_of-append es e key (ground (arith, q, h)))
]

append-AreEntries :
    (es : List Entry) (e : Entry)
    → AreEntries es
    → IsWord 127 e.key
    → IsWord 895 e.text
    → AreEntries (es ++ (e ∷ []))
unfolding AreEntries
append-AreEntries [] e w k t = (k, t, tt)
append-AreEntries (x ∷ es) e w k t = (w.0, w.1, append-AreEntries es e w.2 k t)

-- In a file of lines, each a key of at most 127 bytes and a value of at most 895 without white space, a
-- key that no line has is read as the default, which is appended to the file; and the next read of the
-- key, whatever its default, finds that value in the file, and writes nothing. The key and the default
-- have to be words as well, not empty, without white space, of at most 127 and 895 bytes.
pub get_str-again :
    (es : List Entry) (key d : Str) (size : ℕ) (def : Option Str)
    → AreEntries es
    → IsWord 127 key
    → IsWord 895 d
    → first_of key es ≡ none
    → let file = some (print es ++ line (record { key = key; text = d })) in
      (get_str (some (print es)) key size (some d)
        ≡ ok (record { found = 0; stored = some (strncpy size d); file = file }))
      × (get_str file key size def
          ≡ ok (record { found = 1; stored = some (strncpy size d); file = file }))
unfolding get_str write_str
get_str-again es key d size def w k t h =
    let e : Entry = record { key = key; text = d } in
    let again : look_up (some (print es ++ line e)) key ≡ ok (some d) =
      ap (λ s. look_up (some s) key) (print-append es e)
      ∙ look_up-print (es ++ (e ∷ [])) key (append-AreEntries es e w k t)
      ∙ ap ok (first_of-append es e key h)
      ∙ rw ((same_iff key key).1 refl) refl in
    (rw (look_up-print es key w, h) refl, rw again refl)
