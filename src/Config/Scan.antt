-- ===== src/Config/Scan.antt =====
-- The words that the reads of src/utils/config.c take from a file.
use arax_g_rpc.Prelude.{
  ℕ, zero, suc, ◌+◌, ◌≤◌, ◌<◌, ◌≡◌, ◌≢◌, refl, ap, ap₂, subst, Bool, true, false, [], ◌∷◌, ◌++◌,
  Option, none, some, length, Bool-cases, inl, inr, ◌↔◌, ==_refl, arith, if◌then◌else◌,
}
use arax_g_rpc.Prelude.Outcome.{Outcome, no_fuel}
use arax_g_rpc.Config.Text.{Str, is_space, is_empty, same, skip_space, word}
use arax_g_rpc.Config.{Scanned, eof, key_only, pair, scan, after_scan, find, File, look_up}

same_self : (s : Str) → same s s ≡ true
unfolding same
same_self [] = refl
same_self (c ∷ s) = rw (==_refl c, same_self s) refl

same_sound : (s t : Str) → same s t ≡ true → s ≡ t
unfolding same
same_sound [] [] e = refl
same_sound [] (d ∷ t) e = cc
same_sound (c ∷ s) [] e = cc
same_sound (c ∷ s) (d ∷ t) e = ap₂ ◌∷◌ (ground (arith, e)) (same_sound s t (ground (arith, e)))

pub same_iff : (s t : Str) → (same s t ≡ true) ↔ (s ≡ t)
same_iff s t = (same_sound s t, λ e. subst (λ u. same s u ≡ true) e (same_self s))

-- A word: some bytes, at most `n`, and none of them white space.
unfoldable pub NoSpace : Str → Type 0
NoSpace [] = Unit {0}
NoSpace (c ∷ s) = (is_space c ≡ false) × NoSpace s

abbrev pub IsWord : ℕ → Str → Type 0
IsWord n s = (is_empty s ≡ false) × (length s ≤ n) × NoSpace s

pub word-append :
    (n : ℕ) (s : Str) (c : ℕ) (rest : Str)
    → length s ≤ n
    → NoSpace s
    → is_space c ≡ true
    → word n (s ++ (c ∷ rest)) ≡ (s, c ∷ rest)
unfolding word NoSpace
word-append zero [] c rest l w e = refl
word-append (suc n) [] c rest l w e = rw e refl
word-append zero (d ∷ s) c rest l w e = absurd (omega arith)
word-append (suc n) (d ∷ s) c rest l w e = rw (w.0, word-append n s c rest (omega arith) w.1 e) refl

length-skip_space : (s : Str) → length (skip_space s) ≤ length s
unfolding skip_space
length-skip_space [] = omega arith
length-skip_space (c ∷ s) = ground (arith, length-skip_space s)

-- What a word takes is gone from the input.
length-word : (n : ℕ) (s : Str) → length (word n s).0 + length (word n s).1 ≡ length s
unfolding word
length-word zero s = omega arith
length-word (suc n) [] = refl
length-word (suc n) (c ∷ s) = ground (arith, length-word n s)

pos_length : (s : Str) → is_empty s ≡ false → 0 < length s
unfolding is_empty
pos_length [] e = cc
pos_length (c ∷ s) e = omega arith

pair_parts :
    (a b : Bool) (k t l : Str) {key text left : Str}
    → (if a then eof else if b then key_only k else pair k t l) ≡ pair key text left
    → (a ≡ false) × (l ≡ left)
pair_parts true b k t l e = cc
pair_parts false true k t l e = cc
pair_parts false false k t l e = (refl, cc)

scan-shorter :
    (s : Str) {key text left : Str} → scan s ≡ pair key text left → length left < length s
unfolding scan
scan-shorter s {key} {text} {left} e =
    let key0 = word 127 (skip_space s) in
    let text0 = word 895 (skip_space key0.1) in
    let p = pair_parts (is_empty key0.0) (is_empty text0.0) key0.0 text0.0 text0.1 e in
    omega (
      arith,
      ap length p.1,
      length-skip_space s,
      length-word 127 (skip_space s),
      length-skip_space key0.1,
      length-word 895 (skip_space key0.1),
      pos_length key0.0 p.0,
    )

after_scan-fuel :
    (key : Str) (cval : Option Str) (next : Str → Str → Outcome (Option Str)) (sc : Scanned)
    → ((ckey text left : Str) → sc ≡ pair ckey text left → next text left ≢ no_fuel)
    → after_scan key cval next sc ≢ no_fuel
unfolding after_scan
after_scan-fuel key cval next eof h e = cc
after_scan-fuel key none next (key_only ckey) h e = ground (arith, e)
after_scan-fuel key (some text) next (key_only ckey) h e = ground (arith, e)
after_scan-fuel key cval next (pair ckey text left) h e = elim (Bool-cases (same ckey key)) [
  | inl q ↦ absurd (ground (arith, e, q))
  | inr q ↦ h ckey text left refl (ground (arith, e, q))
]

-- A round for each byte of the input, and one for its end, are enough.
find-fuel :
    (n : ℕ) (key : Str) (cval : Option Str) (s : Str) → length s < n → find n key cval s ≢ no_fuel
unfolding find
find-fuel zero key cval s h = absurd (omega (arith, h))
find-fuel (suc n) key cval s h =
    after_scan-fuel key cval (λ text left. find n key (some text) left) (scan s)
      λ ckey text left e. find-fuel n key (some text) left (omega (arith, h, scan-shorter s e))

pub look_up-fuel : (file : File) (key : Str) → look_up file key ≢ no_fuel
unfolding look_up
look_up-fuel none key = λ e. cc
look_up-fuel (some s) key = find-fuel (suc (length s)) key none s (omega arith)
