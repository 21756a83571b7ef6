-- ===== src/Bitmap/Wrote.antt =====
-- Writes to the chunks of a bitmap that take bits which were free (src/utils/bitmap.c).
use arax_g_rpc.Prelude.{
  if-intro, ℕ, zero, suc, ◌+◌, ◌*◌, ◌≡◌, subst, ◌<◌, ◌≤◌, refl, ap, ◌∙◌, sym, true, some, length,
  length-set, ◌==◌, if◌then◌else◌, arith, Bool-cases, inl, inr,
}
use arax_g_rpc.Bitmap.{Bitmap, put, chunk_at, gap, find_end_small}
use arax_g_rpc.Bitmap.Words.{Word, ones, or, and, low_ones, popcount, is_zero}
use arax_g_rpc.Bitmap.Popcount.{length-or, popcount-or, popcount-zero, run, shl-run}
use arax_g_rpc.Bitmap.Mask.{Mask, run-Mask, low-Mask, ones-Mask}
use arax_g_rpc.Bitmap.Marked.{
  Marked, Sets, or-Sets, zero-Sets, set-Marked, Marked-nothing, Marked-then, Marked-before,
}
use arax_g_rpc.Bitmap.Taken.{taken, AreWords, chunk-length, set-AreWords, taken-set}

-- `b'` is `b` with the `n` bits from `lo` on set, which were free.
pub record Wrote (b : Bitmap) (lo n : ℕ) (b' : Bitmap) : Type 0 where
  pub marked : Marked b.chunks lo n b'.chunks
  pub more : taken b'.chunks ≡ taken b.chunks + n
  pub as_many : length b'.chunks ≡ length b.chunks
  pub same_used : b'.used_bits ≡ b.used_bits
  pub same_size : b'.size_bits ≡ b.size_bits
  pub same_free : b'.free_p ≡ b.free_p
  pub are_words : AreWords b'.chunks

pub Wrote-nothing : (b : Bitmap) (lo : ℕ) → AreWords b.chunks → Wrote b lo 0 b
Wrote-nothing b lo s = record {
  marked = Marked-nothing b.chunks lo;
  more = omega arith;
  as_many = refl;
  same_used = refl;
  same_size = refl;
  same_free = refl;
  are_words = s;
}

pub Wrote-then :
    {b b1 b2 : Bitmap} {lo n m : ℕ}
    → Wrote b lo n b1
    → Wrote b1 (lo + n) m b2
    → Wrote b lo (n + m) b2
Wrote-then f g = record {
  marked = Marked-then f.marked g.marked;
  more = omega (arith, f.more, g.more);
  as_many = g.as_many ∙ f.as_many;
  same_used = g.same_used ∙ f.same_used;
  same_size = g.same_size ∙ f.same_size;
  same_free = g.same_free ∙ f.same_free;
  are_words = g.are_words;
}

pub Wrote-before :
    {b b1 b2 : Bitmap} {lo n m : ℕ}
    → Wrote b (lo + m) n b1
    → Wrote b1 lo m b2
    → Wrote b lo (n + m) b2
Wrote-before f g = record {
  marked = Marked-before f.marked g.marked;
  more = omega (arith, f.more, g.more);
  as_many = g.as_many ∙ f.as_many;
  same_used = g.same_used ∙ f.same_used;
  same_size = g.same_size ∙ f.same_size;
  same_free = g.same_free ∙ f.same_free;
  are_words = g.are_words;
}

pub Wrote-at :
    {b b' : Bitmap} {lo lo' n n' : ℕ} → lo ≡ lo' → n ≡ n' → Wrote b lo n b' → Wrote b lo' n' b'
Wrote-at {b = b} {b' = b'} {lo' = lo'} {n = n} p q w =
    subst (λ k. Wrote b lo' k b') q (subst (λ k. Wrote b k n b') p w)

pub put-Wrote :
    (b : Bitmap) (c : ℕ) (w : Word) {k n : ℕ}
    → AreWords b.chunks
    → c < length b.chunks
    → length w ≡ 64
    → popcount w ≡ popcount (chunk_at b c) + n
    → Sets (chunk_at b c) k n w
    → k + n ≤ 64
    → Wrote b (c * 64 + k) n (put b c w)
put-Wrote b c w s h l p m fits = record {
  marked = set-Marked b.chunks c w m fits h;
  more = omega (arith, taken-set b.chunks c w h);
  as_many = length-set b.chunks c w;
  same_used = refl;
  same_size = refl;
  same_free = refl;
  are_words = set-AreWords b.chunks c w s l;
}

-- A mask over bits that are free.
pub or-Wrote :
    (b : Bitmap) (c : ℕ) (m : Word) {k n : ℕ}
    → AreWords b.chunks
    → c < length b.chunks
    → Mask m k n
    → k + n ≤ 64
    → is_zero (and m (chunk_at b c)) ≡ true
    → Wrote b (c * 64 + k) n (put b c (or (chunk_at b c) m))
or-Wrote b c m s h k fits z =
    let cl = chunk-length b.chunks c s in
    put-Wrote b c _ s h (length-or (chunk_at b c) m (cl ∙ sym k.size) ∙ cl)
      (popcount-or (chunk_at b c) m (cl ∙ sym k.size) z
        ∙ ap (λ i. popcount (chunk_at b c) + i) k.bits)
      (or-Sets (chunk_at b c) m k cl z) fits

-- A free chunk that the mask replaces.
pub zero-Wrote :
    (b : Bitmap) (c : ℕ) (m : Word) {k n : ℕ}
    → AreWords b.chunks
    → c < length b.chunks
    → Mask m k n
    → k + n ≤ 64
    → is_zero (chunk_at b c) ≡ true
    → Wrote b (c * 64 + k) n (put b c m)
zero-Wrote b c m s h k fits z =
    put-Wrote b c m s h k.size (omega (arith, k.bits, popcount-zero (chunk_at b c) z))
      (zero-Sets (chunk_at b c) k z) fits

-- What the search for a gap stops at: a mask of `n` free bits from the shift on.
abbrev pub Gap : Word → ℕ → Word × ℕ → Type 0
Gap usable n found =
    Mask found.0 found.1 n × (is_zero (and found.0 usable) ≡ true) × (found.1 + n ≤ 64)

some-eq : {A : Type 0} {x y : A} → some x ≡ some y → x ≡ y
some-eq e = cc

gap-here :
    (n r s : ℕ) (usable : Word) {found : Word × ℕ}
    → s + n + r ≡ 64
    → is_zero (and (run s n r) usable) ≡ true
    → gap (suc r) (run s n r) usable s ≡ some found
    → Gap usable n found
unfolding gap
gap-here n r s usable fits z h =
    subst (Gap usable n) {x = (run s n r, s)} (some-eq (ground (arith, z, h)))
      (run-Mask s n r fits, z, omega (arith, fits))

pub gap-Found :
    (n r s : ℕ) (usable : Word) {found : Word × ℕ}
    → s + n + r ≡ 64
    → gap (suc r) (run s n r) usable s ≡ some found
    → Gap usable n found
unfolding gap
gap-Found n zero s usable fits h = elim (Bool-cases (is_zero (and (run s n 0) usable))) [
  | inl z ↦ gap-here n 0 s usable fits z h
  | inr z ↦ absurd (ground (arith, z, h))
]
gap-Found n (suc r) s usable {found = found} fits h =
    elim (Bool-cases (is_zero (and (run s n (suc r)) usable))) [
      | inl z ↦ gap-here n (suc r) s usable fits z h
      | inr z ↦
          gap-Found n r (suc s) usable {found = found} (omega arith)
            (ground (arith, z, h, shl-run s n r fits))
    ]

pub first-Mask : (n : ℕ) → n ≤ 64 → Mask (if n == 64 then ones else low_ones n) 0 n
first-Mask n h =
    if-intro (λ m. Mask m 0 n) (n == 64) (λ e. subst (Mask ones 0) (ground (arith, e)) ones-Mask)
      λ _. low-Mask n h

-- A chunk whose first bits were free.
pub find_end_small-Wrote :
    (b : Bitmap) (c n : ℕ) {next : Word}
    → AreWords b.chunks
    → c < length b.chunks
    → n ≤ 64
    → find_end_small n (chunk_at b c) ≡ some next
    → Wrote b (c * 64) n (put b c next)
unfolding find_end_small
find_end_small-Wrote b c n {next = next} s inside fits h =
    let mask = if n == 64 then ones else low_ones n in
    elim (Bool-cases (is_zero (and mask (chunk_at b c)))) [
      | inl z ↦
          subst (λ w. Wrote b (c * 64) n (put b c w)) {x = or (chunk_at b c) mask}
            (some-eq (ground (arith, z, h)))
            (Wrote-at (omega arith) refl
              (or-Wrote b c mask s inside (first-Mask n fits) (omega (arith, fits)) z))
      | inr z ↦ absurd (ground (arith, z, h))
    ]
