-- ===== src/Bitmap/Marked.antt =====
-- Which bits of the chunks a write of src/utils/bitmap.c sets.
use arax_g_rpc.Prelude.{
  ℕ, zero, suc, ◌+◌, ◌*◌, ◌/◌, ◌%◌, ◌≡◌, ◌≢◌, ◌<◌, ◌≤◌, refl, ap, sym, ◌∙◌, Bool, true, false, List,
  [], ◌∷◌, ◌⊎◌, inl, inr, length, replicate, get_or, set, get_or-set_self, get_or-set_ne, dec_lt,
  ℕ_discrete, arith,
}
use arax_g_rpc.Bitmap.Words.{Word, zeros, ones, and, or, complement, is_zero}
use arax_g_rpc.Bitmap.Mask.{Mask, ones-Mask}

-- The bit `i` of a bitmap's chunks.
abbrev pub bit : List Word → ℕ → Bool
bit ws i = get_or (get_or ws (i / 64) zeros) (i % 64) false

-- The `n` bits from `lo` on were free and are set, and no other changed: of a word, and of chunks.
pub record Sets (w : Word) (lo n : ℕ) (w' : Word) : Type 0 where
  pub was : (j : ℕ) → lo ≤ j → j < lo + n → get_or w j false ≡ false
  pub now : (j : ℕ) → lo ≤ j → j < lo + n → get_or w' j false ≡ true
  pub other : (j : ℕ) → j < 64 → (j < lo) ⊎ (lo + n ≤ j) → get_or w' j false ≡ get_or w j false

pub record Marked (ws : List Word) (lo n : ℕ) (ws' : List Word) : Type 0 where
  pub was : (i : ℕ) → lo ≤ i → i < lo + n → bit ws i ≡ false
  pub now : (i : ℕ) → lo ≤ i → i < lo + n → bit ws' i ≡ true
  pub other : (i : ℕ) → (i < lo) ⊎ (lo + n ≤ i) → bit ws' i ≡ bit ws i

zero-bit : (w : Word) (j : ℕ) → is_zero w ≡ true → get_or w j false ≡ false
unfolding is_zero
zero-bit [] j z = refl
zero-bit (true ∷ w) j z = cc
zero-bit (false ∷ w) zero z = refl
zero-bit (false ∷ w) (suc j) z = zero-bit w j z

or-bit_left :
    (w m : Word) (j : ℕ)
    → length w ≡ length m
    → get_or m j false ≡ false
    → get_or (or w m) j false ≡ get_or w j false
unfolding or
or-bit_left [] m j l e = refl
or-bit_left (x ∷ w) [] j l e = absurd (omega arith)
or-bit_left (true ∷ w) (y ∷ m) zero l e = refl
or-bit_left (false ∷ w) (y ∷ m) zero l e = e
or-bit_left (x ∷ w) (y ∷ m) (suc j) l e = or-bit_left w m j (omega arith) e

or-bit_right :
    (w m : Word) (j : ℕ)
    → length w ≡ length m
    → get_or m j false ≡ true
    → get_or (or w m) j false ≡ true
unfolding or
or-bit_right [] [] j l e = e
or-bit_right [] (y ∷ m) j l e = absurd (omega arith)
or-bit_right (x ∷ w) [] j l e = absurd (omega arith)
or-bit_right (true ∷ w) (y ∷ m) zero l e = refl
or-bit_right (false ∷ w) (y ∷ m) zero l e = e
or-bit_right (x ∷ w) (y ∷ m) (suc j) l e = or-bit_right w m j (omega arith) e

disjoint-bit :
    (m w : Word) (j : ℕ)
    → is_zero (and m w) ≡ true
    → get_or m j false ≡ true
    → get_or w j false ≡ false
unfolding and is_zero
disjoint-bit [] w j z e = cc
disjoint-bit (x ∷ m) [] j z e = refl
disjoint-bit (true ∷ m) (true ∷ w) j z e = cc
disjoint-bit (true ∷ m) (false ∷ w) zero z e = refl
disjoint-bit (true ∷ m) (false ∷ w) (suc j) z e = disjoint-bit m w j z e
disjoint-bit (false ∷ m) (y ∷ w) zero z e = cc
disjoint-bit (false ∷ m) (y ∷ w) (suc j) z e = disjoint-bit m w j z e

not-true : {t : Bool} → (t ≡ true → 1 ≤ 0) → t ≡ false
not-true {t = true} h = absurd (omega (arith, h refl))
not-true {t = false} h = refl

outside :
    {m : Word} {lo n : ℕ}
    → Mask m lo n
    → (j : ℕ) → (j < lo) ⊎ (lo + n ≤ j)
    → get_or m j false ≡ false
outside k j (inl h) = not-true λ e. omega (arith, k.from j e)
outside k j (inr h) = not-true λ e. omega (arith, k.from j e)

pub or-Sets :
    (w m : Word) {lo n : ℕ}
    → Mask m lo n
    → length w ≡ 64
    → is_zero (and m w) ≡ true
    → Sets w lo n (or w m)
or-Sets w m k l z = record {
  was = λ j a b. disjoint-bit m w j z (k.all j a b);
  now = λ j a b. or-bit_right w m j (l ∙ sym k.size) (k.all j a b);
  other = λ j s o. or-bit_left w m j (l ∙ sym k.size) (outside k j o);
}

cleared-bit :
    (w m : Word) (j : ℕ) → get_or m j false ≡ true → get_or (and w (complement m)) j false ≡ false
unfolding and complement
cleared-bit [] m j e = refl
cleared-bit (x ∷ w) [] j e = cc
cleared-bit (true ∷ w) (true ∷ m) zero e = refl
cleared-bit (true ∷ w) (false ∷ m) zero e = cc
cleared-bit (false ∷ w) (y ∷ m) zero e = refl
cleared-bit (x ∷ w) (y ∷ m) (suc j) e = cleared-bit w m j e

kept-bit :
    (w m : Word) (j : ℕ)
    → length w ≡ length m
    → get_or m j false ≡ false
    → get_or w j false ≡ get_or (and w (complement m)) j false
unfolding and complement
kept-bit [] m j l e = refl
kept-bit (x ∷ w) [] j l e = absurd (omega arith)
kept-bit (true ∷ w) (true ∷ m) zero l e = cc
kept-bit (true ∷ w) (false ∷ m) zero l e = refl
kept-bit (false ∷ w) (y ∷ m) zero l e = refl
kept-bit (x ∷ w) (y ∷ m) (suc j) l e = kept-bit w m j (omega arith) e

taken-bit :
    (w m : Word) (j : ℕ)
    → length w ≡ length m
    → is_zero (and (complement w) m) ≡ true
    → get_or m j false ≡ true
    → get_or w j false ≡ true
unfolding and complement is_zero
taken-bit [] [] j l z e = e
taken-bit [] (y ∷ m) j l z e = absurd (omega arith)
taken-bit (x ∷ w) [] j l z e = absurd (omega arith)
taken-bit (true ∷ w) (y ∷ m) zero l z e = refl
taken-bit (false ∷ w) (true ∷ m) zero l z e = cc
taken-bit (false ∷ w) (false ∷ m) zero l z e = e
taken-bit (true ∷ w) (y ∷ m) (suc j) l z e = taken-bit w m j (omega arith) z e
taken-bit (false ∷ w) (true ∷ m) (suc j) l z e = cc
taken-bit (false ∷ w) (false ∷ m) (suc j) l z e = taken-bit w m j (omega arith) z e

pub cleared-Sets :
    (w m : Word) {lo n : ℕ}
    → Mask m lo n
    → length w ≡ 64
    → is_zero (and (complement w) m) ≡ true
    → Sets (and w (complement m)) lo n w
cleared-Sets w m k l z = record {
  was = λ j a b. cleared-bit w m j (k.all j a b);
  now = λ j a b. taken-bit w m j (l ∙ sym k.size) z (k.all j a b);
  other = λ j s o. kept-bit w m j (l ∙ sym k.size) (outside k j o);
}

zeros-bit : (n j : ℕ) → get_or (replicate n false) j false ≡ false
zeros-bit zero j = refl
zeros-bit (suc n) zero = refl
zeros-bit (suc n) (suc j) = zeros-bit n j

past_word : {j : ℕ} → j < 64 → (j < 0) ⊎ (64 ≤ j) → 1 ≤ 0
past_word s (inl p) = omega (arith, p)
past_word s (inr p) = omega (arith, p, s)

-- A full word that is emptied.
pub full-Sets :
    (w : Word) → length w ≡ 64 → is_zero (and (complement w) ones) ≡ true → Sets zeros 0 64 w
full-Sets w l z = record {
  was = λ j a b. zeros-bit 64 j;
  now = λ j a b. taken-bit w ones j l z (ones-Mask.all j a b);
  other = λ j s o. absurd (omega (arith, past_word s o));
}

-- A free word that is replaced by the mask.
pub zero-Sets : (w : Word) {m : Word} {lo n : ℕ} → Mask m lo n → is_zero w ≡ true → Sets w lo n m
zero-Sets w k z = record {
  was = λ j a b. zero-bit w j z;
  now = k.all;
  other = λ j s o. outside k j o ∙ sym (zero-bit w j z);
}

chunk_side :
    (i c k n : ℕ)
    → (i < c * 64 + k) ⊎ (c * 64 + k + n ≤ i)
    → i / 64 ≡ c
    → (i % 64 < k) ⊎ (k + n ≤ i % 64)
chunk_side i c k n (inl p) e = inl (omega (arith, p, e))
chunk_side i c k n (inr p) e = inr (omega (arith, p, e))

module _ (ws : List Word) (c : ℕ) (w : Word) where
  set-bit_self : c < length ws → (i : ℕ) → i / 64 ≡ c → bit (set ws c w) i ≡ get_or w (i % 64) false
  set-bit_self h i e =
      ap (λ x. get_or x (i % 64) false)
        (ap (λ d. get_or (set ws c w) d zeros) e ∙ get_or-set_self ws c w zeros h)

  set-bit_ne : (i : ℕ) → i / 64 ≢ c → bit (set ws c w) i ≡ bit ws i
  set-bit_ne i e =
      ap (λ x. get_or x (i % 64) false)
        (get_or-set_ne ws {i = c} {j = i / 64} w zeros (λ q. e (sym q)))

  set-other :
      {k n : ℕ}
      → Sets (get_or ws c zeros) k n w
      → k + n ≤ 64
      → c < length ws
      → (i : ℕ) → (i < c * 64 + k) ⊎ (c * 64 + k + n ≤ i)
      → bit (set ws c w) i ≡ bit ws i
  set-other {k = k} {n = n} s fits h i o = elim (ℕ_discrete (i / 64) c) [
    | yes e ↦
        set-bit_self h i e
        ∙ s.other (i % 64) (omega arith) (chunk_side i c k n o e)
        ∙ ap (λ d. get_or (get_or ws d zeros) (i % 64) false) (sym e)
    | no e ↦ set-bit_ne i e
  ]

  -- A chunk that is replaced by one with a run more.
  pub set-Marked :
      {k n : ℕ}
      → Sets (get_or ws c zeros) k n w
      → k + n ≤ 64
      → c < length ws
      → Marked ws (c * 64 + k) n (set ws c w)
  set-Marked {k = k} {n = n} s fits h = record {
    was = λ i a b.
        let e : i / 64 ≡ c = omega arith in
        ap (λ d. get_or (get_or ws d zeros) (i % 64) false) e
        ∙ s.was (i % 64) (omega arith) (omega arith);
    now = λ i a b. set-bit_self h i (omega arith) ∙ s.now (i % 64) (omega arith) (omega arith);
    other = set-other s fits h;
  }

  -- A chunk that is replaced by one with a run less.
  pub set-Marked_back :
      {k n : ℕ}
      → Sets w k n (get_or ws c zeros)
      → k + n ≤ 64
      → c < length ws
      → Marked (set ws c w) (c * 64 + k) n ws
  set-Marked_back {k = k} {n = n} s fits h = record {
    was = λ i a b. set-bit_self h i (omega arith) ∙ s.was (i % 64) (omega arith) (omega arith);
    now = λ i a b.
        let e : i / 64 ≡ c = omega arith in
        ap (λ d. get_or (get_or ws d zeros) (i % 64) false) e
        ∙ s.now (i % 64) (omega arith) (omega arith);
    other = λ i o. elim (ℕ_discrete (i / 64) c) [
      | yes e ↦
          ap (λ d. get_or (get_or ws d zeros) (i % 64) false) e
          ∙ s.other (i % 64) (omega arith) (chunk_side i c k n o e)
          ∙ sym (set-bit_self h i e)
      | no e ↦ sym (set-bit_ne i e)
    ];
  }

pub Marked-nothing : (ws : List Word) (lo : ℕ) → Marked ws lo 0 ws
Marked-nothing ws lo = record {
  was = λ i a b. absurd (omega arith);
  now = λ i a b. absurd (omega arith);
  other = λ i o. refl;
}

-- A run that is set, and the run behind it.
pub Marked-then :
    {a b c : List Word} {lo n m : ℕ}
    → Marked a lo n b
    → Marked b (lo + n) m c
    → Marked a lo (n + m) c
Marked-then {a = a} {b = b} {c = c} {lo = lo} {n = n} {m = m} f g = record {
  was = λ i l u. elim (dec_lt i (lo + n)) [
    | yes p ↦ f.was i l p
    | no p ↦
        sym (f.other i (inr (omega (arith, p)))) ∙ g.was i (omega (arith, p)) (omega (arith, u))
  ];
  now = λ i l u. elim (dec_lt i (lo + n)) [
    | yes p ↦ g.other i (inl p) ∙ f.now i l p
    | no p ↦ g.now i (omega (arith, p)) (omega (arith, u))
  ];
  other = λ i o. g.other i (later i o) ∙ f.other i (earlier i o);
}
  where
    later : (i : ℕ) → (i < lo) ⊎ (lo + (n + m) ≤ i) → (i < lo + n) ⊎ (lo + n + m ≤ i)
    later i (inl p) = inl (omega (arith, p))
    later i (inr p) = inr (omega (arith, p))

    earlier : (i : ℕ) → (i < lo) ⊎ (lo + (n + m) ≤ i) → (i < lo) ⊎ (lo + n ≤ i)
    earlier i (inl p) = inl p
    earlier i (inr p) = inr (omega (arith, p))

-- A run that is set, and the run before it.
pub Marked-before :
    {a b c : List Word} {lo n m : ℕ}
    → Marked a (lo + m) n b
    → Marked b lo m c
    → Marked a lo (n + m) c
Marked-before {a = a} {b = b} {c = c} {lo = lo} {n = n} {m = m} f g = record {
  was = λ i l u. elim (dec_lt i (lo + m)) [
    | yes p ↦ sym (f.other i (inl p)) ∙ g.was i l p
    | no p ↦ f.was i (omega (arith, p)) (omega (arith, u))
  ];
  now = λ i l u. elim (dec_lt i (lo + m)) [
    | yes p ↦ g.now i l p
    | no p ↦ g.other i (inr (omega (arith, p))) ∙ f.now i (omega (arith, p)) (omega (arith, u))
  ];
  other = λ i o. g.other i (earlier i o) ∙ f.other i (later i o);
}
  where
    later : (i : ℕ) → (i < lo) ⊎ (lo + (n + m) ≤ i) → (i < lo + m) ⊎ (lo + m + n ≤ i)
    later i (inl p) = inl (omega (arith, p))
    later i (inr p) = inr (omega (arith, p))

    earlier : (i : ℕ) → (i < lo) ⊎ (lo + (n + m) ≤ i) → (i < lo) ⊎ (lo + m ≤ i)
    earlier i (inl p) = inl p
    earlier i (inr p) = inr (omega (arith, p))
