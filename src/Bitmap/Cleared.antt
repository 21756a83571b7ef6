-- ===== src/Bitmap/Cleared.antt =====
-- Writes to the chunks of a bitmap that give back bits which were taken (src/utils/bitmap.c).
use arax_g_rpc.Prelude.{
  ℕ, zero, suc, ◌+◌, ◌*◌, ◌≡◌, ◌<◌, ◌≤◌, refl, ap, ◌∙◌, sym, subst, true, List, [], ◌∷◌, some,
  length, length-set, get_or, get_elem?, get_or-set_ne, arith,
}
use arax_g_rpc.Prelude.Outcome.{ok}
use arax_g_rpc.Bitmap.{Bitmap, put, chunk_at, chunk, clear, assert_taken, fill}
use arax_g_rpc.Bitmap.Words.{Word, zeros, ones, and, complement, popcount, is_zero}
use arax_g_rpc.Bitmap.Popcount.{popcount-falses, popcount-le, popcount-ones}
use arax_g_rpc.Bitmap.Mask.{Mask}
use arax_g_rpc.Bitmap.Marked.{
  Marked, Sets, cleared-Sets, full-Sets, set-Marked_back, Marked-nothing, Marked-then,
  Marked-before,
}
use arax_g_rpc.Bitmap.Masks.{length-and, length-complement, popcount-cleared}
use arax_g_rpc.Bitmap.Taken.{taken, AreWords, chunk-length, set-AreWords, taken-set}

-- `b'` is `b` with the `n` bits from `lo` on free, which were set.
pub record Cleared (b : Bitmap) (lo n : ℕ) (b' : Bitmap) : Type 0 where
  pub marked : Marked b'.chunks lo n b.chunks
  pub less : taken b'.chunks + n ≡ taken b.chunks
  pub as_many : length b'.chunks ≡ length b.chunks
  pub same_used : b'.used_bits ≡ b.used_bits
  pub same_size : b'.size_bits ≡ b.size_bits
  pub same_free : b'.free_p ≡ b.free_p
  pub are_words : AreWords b'.chunks

pub Cleared-then :
    {b b1 b2 : Bitmap} {lo n m : ℕ}
    → Cleared b lo n b1
    → Cleared b1 (lo + n) m b2
    → Cleared b lo (m + n) b2
Cleared-then f g = record {
  marked = Marked-before g.marked f.marked;
  less = omega (arith, f.less, g.less);
  as_many = g.as_many ∙ f.as_many;
  same_used = g.same_used ∙ f.same_used;
  same_size = g.same_size ∙ f.same_size;
  same_free = g.same_free ∙ f.same_free;
  are_words = g.are_words;
}

pub Cleared-before :
    {b b1 b2 : Bitmap} {lo n m : ℕ}
    → Cleared b (lo + m) n b1
    → Cleared b1 lo m b2
    → Cleared b lo (m + n) b2
Cleared-before f g = record {
  marked = Marked-then g.marked f.marked;
  less = omega (arith, f.less, g.less);
  as_many = g.as_many ∙ f.as_many;
  same_used = g.same_used ∙ f.same_used;
  same_size = g.same_size ∙ f.same_size;
  same_free = g.same_free ∙ f.same_free;
  are_words = g.are_words;
}

pub Cleared-at :
    {b b' : Bitmap} {lo lo' n n' : ℕ} → lo ≡ lo' → n ≡ n' → Cleared b lo n b' → Cleared b lo' n' b'
Cleared-at {b = b} {b' = b'} {lo' = lo'} {n = n} p q c =
    subst (λ k. Cleared b lo' k b') q (subst (λ k. Cleared b k n b') p c)

put-Cleared :
    (b : Bitmap) (c : ℕ) (w : Word) {k n : ℕ}
    → AreWords b.chunks
    → c < length b.chunks
    → length w ≡ 64
    → popcount w + n ≡ popcount (chunk_at b c)
    → Sets w k n (chunk_at b c)
    → k + n ≤ 64
    → Cleared b (c * 64 + k) n (put b c w)
put-Cleared b c w s h l p m fits = record {
  marked = set-Marked_back b.chunks c w m fits h;
  less = omega (arith, taken-set b.chunks c w h);
  as_many = length-set b.chunks c w;
  same_used = refl;
  same_size = refl;
  same_free = refl;
  are_words = set-AreWords b.chunks c w s l;
}

get_elem?-lt : (ws : List Word) (c : ℕ) → c < length ws → get_elem? ws c ≡ some (get_or ws c zeros)
get_elem?-lt [] c h = absurd (omega arith)
get_elem?-lt (w ∷ ws) zero h = refl
get_elem?-lt (w ∷ ws) (suc c) h = get_elem?-lt ws c (omega arith)

pub chunk-inside : (b : Bitmap) (c : ℕ) → c < length b.chunks → chunk b c ≡ ok (chunk_at b c)
unfolding chunk
chunk-inside b c h = rw (chunk, get_elem?-lt b.chunks c h) refl

-- The bits of a mask are all set, and they are cleared.
unfoldable pub cleared : Bitmap → ℕ → Word → Bitmap
cleared b c m = put b c (and (chunk_at b c) (complement m))

pub clear-inside :
    (b : Bitmap) (c : ℕ) (m : Word) → c < length b.chunks → clear b c m ≡ ok (cleared b c m)
unfolding clear cleared
clear-inside b c m h = rw (chunk-inside b c h) refl

pub assert_taken-passes :
    (b : Bitmap) (c : ℕ) (m : Word)
    → c < length b.chunks
    → is_zero (and (complement (chunk_at b c)) m) ≡ true
    → assert_taken b c m ≡ ok tt
unfolding assert_taken
assert_taken-passes b c m h z = rw (chunk-inside b c h, z) refl

pub cleared-Cleared :
    (b : Bitmap) (c : ℕ) (m : Word) {k n : ℕ}
    → AreWords b.chunks
    → c < length b.chunks
    → Mask m k n
    → k + n ≤ 64
    → is_zero (and (complement (chunk_at b c)) m) ≡ true
    → Cleared b (c * 64 + k) n (cleared b c m)
unfolding cleared
cleared-Cleared b c m s h k fits z =
    let cl = chunk-length b.chunks c s in
    put-Cleared b c _ s h
      (length-and (chunk_at b c) (complement m) (cl ∙ sym k.size ∙ sym (length-complement m)) ∙ cl)
      (ap (λ i. popcount (and (chunk_at b c) (complement m)) + i) (sym k.bits)
        ∙ popcount-cleared (chunk_at b c) m (cl ∙ sym k.size) z)
      (cleared-Sets (chunk_at b c) m k cl z) fits

-- A word all of whose bits are set.
full-popcount :
    (w : Word) → length w ≡ 64 → is_zero (and (complement w) ones) ≡ true → popcount w ≡ 64
full-popcount w l z = omega (arith, l, popcount-le w, popcount-cleared w ones l z, popcount-ones 64)

-- A run of full chunks that is cleared.
pub fill-Cleared :
    (n : ℕ) (b : Bitmap) (c : ℕ)
    → AreWords b.chunks
    → c + n ≤ length b.chunks
    → ((i : ℕ) → c ≤ i → i < c + n → is_zero (and (complement (chunk_at b i)) ones) ≡ true)
    → Cleared b (c * 64) (n * 64) (fill n c zeros b)
unfolding fill
fill-Cleared zero b c s h full = record {
  marked = Marked-nothing b.chunks (c * 64);
  less = omega arith;
  as_many = refl;
  same_used = refl;
  same_size = refl;
  same_free = refl;
  are_words = s;
}
fill-Cleared (suc n) b c s h full =
    let l = chunk-length b.chunks c s in
    let z = full c (omega arith) (omega arith) in
    let first = Cleared-at {lo' = c * 64} (omega arith) refl (
      put-Cleared b c zeros {n = 64} s (omega arith) refl
        (omega (arith, popcount-falses 64, full-popcount (chunk_at b c) l z))
        (full-Sets (chunk_at b c) l z) (omega arith)) in
    Cleared-at {n = n * 64 + 64} refl (omega arith) (
      Cleared-then first (
        Cleared-at {lo' = c * 64 + 64} (omega arith) refl (
          fill-Cleared n (put b c zeros) (c + 1) first.are_words (omega (arith, first.as_many))
            λ i a u.
              ap (λ w. is_zero (and (complement w) ones))
                (get_or-set_ne b.chunks {i = c} {j = i} zeros zeros (λ e. omega (arith, e)))
              ∙ full i (omega arith) (omega arith))))
