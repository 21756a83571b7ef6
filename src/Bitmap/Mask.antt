-- ===== src/Bitmap/Mask.antt =====
-- Words whose set bits are one run, as src/utils/bitmap.c makes them for its masks.
use arax_g_rpc.Prelude.{
  ℕ, zero, suc, ◌+◌, ◌-◌, ◌≡◌, ◌<◌, ◌≤◌, refl, ap, ◌∙◌, subst, sym, true, false, ◌++◌, length,
  length-append, length-replicate, get_or, replicate, arith,
}
use arax_g_rpc.Bitmap.Words.{Word, ones, low_ones, high_ones, shl, shl_by, popcount}
use arax_g_rpc.Bitmap.Popcount.{
  run, shl-run, popcount-run, length-run, popcount-append, popcount-ones, popcount-falses,
}

falses-bit : (r j : ℕ) → get_or (replicate r false) j false ≡ true → 1 ≤ 0
falses-bit zero j e = absurd (ground (arith, e))
falses-bit (suc r) zero e = absurd (ground (arith, e))
falses-bit (suc r) (suc j) e = falses-bit r j e

run-bit : (s n r j : ℕ) → get_or (run s n r) j false ≡ true → (s ≤ j) × (j < s + n)
run-bit zero zero r j e = absurd (omega (arith, falses-bit r j e))
run-bit zero (suc n) r zero e = (omega arith, omega arith)
run-bit zero (suc n) r (suc j) e = (omega arith, omega (arith, run-bit zero n r j e))
run-bit (suc s) n r zero e = cc
run-bit (suc s) n r (suc j) e = (omega (arith, run-bit s n r j e), omega (arith, run-bit s n r j e))

run-set : (s n r j : ℕ) → s ≤ j → j < s + n → get_or (run s n r) j false ≡ true
run-set zero zero r j l u = absurd (omega arith)
run-set zero (suc n) r zero l u = refl
run-set zero (suc n) r (suc j) l u = run-set zero n r j (omega arith) (omega arith)
run-set (suc s) n r zero l u = absurd (omega arith)
run-set (suc s) n r (suc j) l u = run-set s n r j (omega arith) (omega arith)

ones-bit : (n j : ℕ) → get_or (replicate n true) j false ≡ true → j < n
ones-bit zero j e = cc
ones-bit (suc n) zero e = omega arith
ones-bit (suc n) (suc j) e = omega (arith, ones-bit n j e)

ones-set : (n j : ℕ) → j < n → get_or (replicate n true) j false ≡ true
ones-set zero j h = absurd (omega arith)
ones-set (suc n) zero h = refl
ones-set (suc n) (suc j) h = ones-set n j (omega arith)

high-bit :
    (n m j : ℕ)
    → get_or (replicate n false ++ replicate m true) j false ≡ true
    → (n ≤ j) × (j < n + m)
high-bit zero m j e = (omega arith, omega (arith, ones-bit m j e))
high-bit (suc n) m zero e = cc
high-bit (suc n) m (suc j) e = (omega (arith, high-bit n m j e), omega (arith, high-bit n m j e))

high-set :
    (n m j : ℕ) → n ≤ j → j < n + m → get_or (replicate n false ++ replicate m true) j false ≡ true
high-set zero m j l u = ones-set m j (omega arith)
high-set (suc n) m zero l u = absurd (omega arith)
high-set (suc n) m (suc j) l u = high-set n m j (omega arith) (omega arith)

-- A mask of `n` bits, those from `lo` on.
pub record Mask (m : Word) (lo n : ℕ) : Type 0 where
  pub bits : popcount m ≡ n
  pub size : length m ≡ 64
  pub from : (j : ℕ) → get_or m j false ≡ true → (lo ≤ j) × (j < lo + n)
  pub all : (j : ℕ) → lo ≤ j → j < lo + n → get_or m j false ≡ true

pub run-Mask : (s n r : ℕ) → s + n + r ≡ 64 → Mask (run s n r) s n
run-Mask s n r h = record {
  bits = popcount-run s n r;
  size = length-run s n r ∙ h;
  from = run-bit s n r;
  all = run-set s n r;
}

shl_by-run : (k n r : ℕ) → n + r ≡ 64 → k ≤ r → shl_by k (run 0 n r) ≡ run k n (r - k)
unfolding shl_by
shl_by-run zero n r f h = ap (run 0 n) (omega arith)
shl_by-run (suc k) n r f h =
    ap shl (shl_by-run k n r f (omega arith) ∙ ap (run k n) {y = suc (r - suc k)} (omega arith))
    ∙ shl-run k n (r - suc k) (omega arith)

pub shifted-Mask : (k n : ℕ) → k + n ≤ 64 → Mask (shl_by k (low_ones n)) k n
shifted-Mask k n h =
    subst (λ m. Mask m k n) (sym (shl_by-run k n (64 - n) (omega arith) (omega arith)))
      (run-Mask k n (64 - n - k) (omega arith))

pub low-Mask : (n : ℕ) → n ≤ 64 → Mask (low_ones n) 0 n
low-Mask n h = run-Mask 0 n (64 - n) (omega arith)

pub ones-Mask : Mask ones 0 64
ones-Mask = record {
  bits = popcount-ones 64;
  size = refl;
  from = λ j e. (omega arith, ones-bit 64 j e);
  all = λ j l u. ones-set 64 j (omega arith);
}

pub high-Mask : (n : ℕ) → n ≤ 64 → Mask (high_ones n) n (64 - n)
high-Mask n h = record {
  bits = omega (
    arith,
    popcount-append (replicate n false) (replicate (64 - n) true),
    popcount-falses n,
    popcount-ones (64 - n),
  );
  size = omega (
    arith,
    length-append (replicate n false) (replicate (64 - n) true),
    length-replicate n false,
    length-replicate (64 - n) true,
  );
  from = high-bit n (64 - n);
  all = high-set n (64 - n);
}
