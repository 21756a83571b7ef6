-- ===== src/Bitmap/Popcount.antt =====
-- How many bits of a word are set (src/utils/bitmap.c).
use arax_g_rpc.Prelude.{
  ℕ, zero, suc, ◌+◌, ◌-◌, ◌≡◌, ◌≤◌, refl, ap, subst, sym, Bool, true, false, [], ◌∷◌, ◌++◌, length,
  length-append, length-replicate, take, drop, replicate, arith, inl, inr, Bool-cases,
}
use arax_g_rpc.Bitmap.Words.{Word, and, or, shl, popcount, clz, clz_after, is_zero}

pub length-or : (a b : Word) → length a ≡ length b → length (or a b) ≡ length a
unfolding or
length-or [] b h = refl
length-or (x ∷ a) [] h = absurd (omega arith)
length-or (x ∷ a) (y ∷ b) h = omega (arith, length-or a b (omega arith))

pub and_comm : (a b : Word) → and a b ≡ and b a
unfolding and
and_comm [] [] = refl
and_comm [] (y ∷ b) = refl
and_comm (x ∷ a) [] = refl
and_comm (true ∷ a) (true ∷ b) = ap (λ w. true ∷ w) (and_comm a b)
and_comm (true ∷ a) (false ∷ b) = ap (λ w. false ∷ w) (and_comm a b)
and_comm (false ∷ a) (true ∷ b) = ap (λ w. false ∷ w) (and_comm a b)
and_comm (false ∷ a) (false ∷ b) = ap (λ w. false ∷ w) (and_comm a b)

-- Disjoint words add up.
pub popcount-or :
    (a b : Word)
    → length a ≡ length b
    → is_zero (and b a) ≡ true
    → popcount (or a b) ≡ popcount a + popcount b
unfolding or and is_zero popcount
popcount-or [] [] h z = refl
popcount-or [] (y ∷ b) h z = absurd (omega arith)
popcount-or (x ∷ a) [] h z = absurd (omega arith)
popcount-or (true ∷ a) (true ∷ b) h z = cc
popcount-or (true ∷ a) (false ∷ b) h z = omega (arith, popcount-or a b (omega arith) z)
popcount-or (false ∷ a) (true ∷ b) h z = omega (arith, popcount-or a b (omega arith) z)
popcount-or (false ∷ a) (false ∷ b) h z = popcount-or a b (omega arith) z

pub popcount-zero : (a : Word) → is_zero a ≡ true → popcount a ≡ 0
unfolding is_zero popcount
popcount-zero [] z = refl
popcount-zero (true ∷ a) z = cc
popcount-zero (false ∷ a) z = popcount-zero a z

pub popcount-append : (a b : Word) → popcount (a ++ b) ≡ popcount a + popcount b
unfolding popcount
popcount-append [] b = omega arith
popcount-append (true ∷ a) b = omega (arith, popcount-append a b)
popcount-append (false ∷ a) b = popcount-append a b

pub popcount-ones : (n : ℕ) → popcount (replicate n true) ≡ n
unfolding popcount
popcount-ones zero = refl
popcount-ones (suc n) = ap suc (popcount-ones n)

pub popcount-falses : (n : ℕ) → popcount (replicate n false) ≡ 0
unfolding popcount
popcount-falses zero = refl
popcount-falses (suc n) = popcount-falses n

-- A word with `n` ones from bit `s` on and then `r` zeros.
abbrev pub run : ℕ → ℕ → ℕ → Word
run s n r = replicate s false ++ (replicate n true ++ replicate r false)

pub popcount-run : (s n r : ℕ) → popcount (run s n r) ≡ n
popcount-run s n r = omega (
  arith,
  popcount-append (replicate s false) (replicate n true ++ replicate r false),
  popcount-append (replicate n true) (replicate r false),
  popcount-falses s,
  popcount-ones n,
  popcount-falses r,
)

pub length-run : (s n r : ℕ) → length (run s n r) ≡ s + n + r
length-run s n r = omega (
  arith,
  length-append (replicate s false) (replicate n true ++ replicate r false),
  length-append (replicate n true) (replicate r false),
  length-replicate s false,
  length-replicate n true,
  length-replicate r false,
)

take-falses : (r k : ℕ) → k ≡ r → take k (replicate (suc r) false) ≡ replicate r false
take-falses r zero h = ground arith
take-falses zero (suc k) h = absurd (omega arith)
take-falses (suc r) (suc k) h = ap (λ w. false ∷ w) (take-falses r k (omega arith))

take-trues :
    (n r k : ℕ)
    → k ≡ n + r
    → take k (replicate n true ++ replicate (suc r) false) ≡ replicate n true ++ replicate r false
take-trues zero r k h = take-falses r k (omega arith)
take-trues (suc n) r zero h = absurd (omega arith)
take-trues (suc n) r (suc k) h = ap (λ w. true ∷ w) (take-trues n r k (omega arith))

take-run : (s n r k : ℕ) → k ≡ s + n + r → take k (run s n (suc r)) ≡ run s n r
take-run zero n r k h = take-trues n r k (omega arith)
take-run (suc s) n r zero h = absurd (omega arith)
take-run (suc s) n r (suc k) h = ap (λ w. false ∷ w) (take-run s n r k (omega arith))

-- The mask of a run, moved up by one.
pub shl-run : (s n r : ℕ) → s + n + suc r ≡ 64 → shl (run s n (suc r)) ≡ run (suc s) n r
shl-run s n r h = ap (λ w. false ∷ w) (take-run s n r 63 (omega arith))

-- Bits free in a word are free in the words below it.
pub disjoint-or :
    (m a h : Word)
    → length a ≡ length h
    → is_zero (and m (or a h)) ≡ true
    → is_zero (and m a) ≡ true
unfolding and or is_zero
disjoint-or [] a h l z = refl
disjoint-or (x ∷ m) [] h l z = refl
disjoint-or (x ∷ m) (y ∷ a) [] l z = absurd (omega arith)
disjoint-or (false ∷ m) (y ∷ a) (w ∷ h) l z = disjoint-or m a h (omega arith) z
disjoint-or (true ∷ m) (true ∷ a) (w ∷ h) l z = cc
disjoint-or (true ∷ m) (false ∷ a) (true ∷ h) l z = cc
disjoint-or (true ∷ m) (false ∷ a) (false ∷ h) l z = disjoint-or m a h (omega arith) z

pub popcount-usable :
    (a h : Word) → length a ≡ length h → is_zero (or a h) ≡ true → is_zero a ≡ true
unfolding or is_zero
popcount-usable [] h l z = refl
popcount-usable (x ∷ a) [] l z = absurd (omega arith)
popcount-usable (true ∷ a) (y ∷ h) l z = cc
popcount-usable (false ∷ a) (true ∷ h) l z = cc
popcount-usable (false ∷ a) (false ∷ h) l z = popcount-usable a h (omega arith) z

clz_after-zero : (r : ℕ) (w : Word) → is_zero w ≡ true → clz_after r w ≡ r + length w
unfolding clz_after is_zero
clz_after-zero r [] z = omega arith
clz_after-zero r (true ∷ w) z = cc
clz_after-zero r (false ∷ w) z = omega (arith, clz_after-zero (suc r) w z)

clz_after-any : (r q : ℕ) (w : Word) → is_zero w ≡ false → clz_after r w ≡ clz_after q w
unfolding clz_after is_zero
clz_after-any r q [] z = cc
clz_after-any r q (true ∷ w) z = refl
clz_after-any r q (false ∷ w) z = clz_after-any (suc r) (suc q) w z

pub clz-le : (w : Word) → clz w ≤ length w
unfolding clz clz_after
clz-le [] = omega arith
clz-le (true ∷ w) = omega (arith, clz-le w)
clz-le (false ∷ w) = elim (Bool-cases (is_zero w)) [
  | inl z ↦ omega (arith, clz_after-zero 1 w z)
  | inr z ↦ omega (arith, clz-le w, clz_after-any 1 0 w z)
]

pub popcount-le : (w : Word) → popcount w ≤ length w
unfolding popcount
popcount-le [] = omega arith
popcount-le (true ∷ w) = omega (arith, popcount-le w)
popcount-le (false ∷ w) = omega (arith, popcount-le w)

-- The zeros at the end and the ones fit into the word.
pub popcount-clz : (w : Word) → popcount w + clz w ≤ length w
unfolding clz clz_after popcount
popcount-clz [] = omega arith
popcount-clz (true ∷ w) = elim (Bool-cases (is_zero w)) [
  | inl z ↦ omega (arith, clz_after-zero 0 w z, popcount-zero w z)
  | inr z ↦ omega (arith, popcount-clz w)
]
popcount-clz (false ∷ w) = elim (Bool-cases (is_zero w)) [
  | inl z ↦ omega (arith, clz_after-zero 1 w z, popcount-zero w z)
  | inr z ↦ omega (arith, popcount-clz w, clz_after-any 1 0 w z)
]

drop-Free :
    (x : Bool) (w : Word) (k : ℕ)
    → k ≡ suc (length w - clz w)
    → is_zero (drop (length w - clz w) w) ≡ true
    → is_zero (drop k (x ∷ w)) ≡ true
drop-Free x w k e h =
    subst (λ i. is_zero (drop i (x ∷ w)) ≡ true) {x = suc (length w - clz w)} (sym e) h

-- The bits that `clz` counts are zeros.
pub clz-Free : (w : Word) → is_zero (drop (length w - clz w) w) ≡ true
unfolding clz clz_after is_zero
clz-Free [] = refl
clz-Free (true ∷ w) = elim (Bool-cases (is_zero w)) [
  | inl z ↦ ground (arith, clz_after-zero 0 w z)
  | inr z ↦ drop-Free true w _ (omega (arith, clz-le w, clz_after-any 0 0 w z)) (clz-Free w)
]
clz-Free (false ∷ w) = elim (Bool-cases (is_zero w)) [
  | inl z ↦ ground (arith, clz_after-zero 1 w z)
  | inr z ↦ drop-Free false w _ (omega (arith, clz-le w, clz_after-any 1 0 w z)) (clz-Free w)
]

pub high-Free :
    (n m : ℕ) (w : Word)
    → is_zero (drop n w) ≡ true
    → is_zero (and (replicate n false ++ replicate m true) w) ≡ true
unfolding and is_zero
high-Free zero zero w z = refl
high-Free zero (suc m) [] z = refl
high-Free zero (suc m) (true ∷ w) z = cc
high-Free zero (suc m) (false ∷ w) z = high-Free zero m w z
high-Free (suc n) m [] z = refl
high-Free (suc n) m (x ∷ w) z = high-Free n m w z

-- The empty mask meets nothing.
pub falses-Free : (s r : ℕ) (w : Word) → is_zero (and (run s 0 r) w) ≡ true
unfolding and is_zero
falses-Free zero zero w = refl
falses-Free zero (suc r) [] = refl
falses-Free zero (suc r) (x ∷ w) = falses-Free zero r w
falses-Free (suc s) r [] = refl
falses-Free (suc s) r (x ∷ w) = falses-Free s r w
