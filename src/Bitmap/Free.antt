-- ===== src/Bitmap/Free.antt =====
-- `utils_bitmap_free_bits` of src/utils/bitmap.c on a run of bits that are set.
use arax_g_rpc.Prelude.{
  if-intro, ℕ, ◌+◌, ◌-◌, ◌*◌, ◌/◌, ◌%◌, ◌≡◌, ◌≢◌, ◌<◌, ◌≤◌, refl, ap, ◌∙◌, sym, subst, true, false,
  length, get_or, get_or-set_ne, ◌==◌, ltb, if◌then◌else◌, arith,
}
use arax_g_rpc.Prelude.Outcome.{Outcome, ok, fault, ◌>>=◌, ◌>>◌}
use arax_g_rpc.Bitmap.{Bitmap, u64, chunk_at, clear, assert_taken, fill, give_bits, free_bits}
use arax_g_rpc.Bitmap.Words.{Word, zeros, ones, low_ones, and, complement, shl_by, is_zero}
use arax_g_rpc.Bitmap.Mask.{Mask, shifted-Mask, ones-Mask, high-Mask}
use arax_g_rpc.Bitmap.Masks.{single-Mask, end-Mask, mask-Taken}
use arax_g_rpc.Bitmap.Taken.{taken}
use arax_g_rpc.Bitmap.Marked.{Marked}
use arax_g_rpc.Bitmap.Valid.{IsValid}
use arax_g_rpc.Bitmap.Cleared.{
  Cleared, Cleared-then, Cleared-before, Cleared-at, cleared, clear-inside, assert_taken-passes,
  cleared-Cleared, fill-Cleared,
}

-- The bits from `start` on are set.
abbrev pub RunTaken : Bitmap → ℕ → ℕ → Type 0
RunTaken b start bits =
    (i : ℕ) → start ≤ i → i < start + bits → get_or (chunk_at b (i / 64)) (i % 64) false ≡ true

module _ (b : Bitmap) (start bits : ℕ) (run : RunTaken b start bits) where
  -- A part of the run in one chunk.
  part-Taken :
      (c lo n : ℕ) (m : Word)
      → Mask m lo n
      → lo + n ≤ 64
      → start ≤ c * 64 + lo
      → c * 64 + lo + n ≤ start + bits
      → is_zero (and (complement (chunk_at b c)) m) ≡ true
  part-Taken c lo n m k fits le up = mask-Taken (chunk_at b c) m λ j e.
      let in_run = run (c * 64 + j) (omega (arith, k.from j e)) (omega (arith, k.from j e)) in
      subst (λ i. get_or (chunk_at b i) j false ≡ true) {x = (c * 64 + j) / 64}
        (omega (arith, k.from j e))
        (subst (λ i. get_or (chunk_at b ((c * 64 + j) / 64)) i false ≡ true) {x = (c * 64 + j) % 64}
          (omega (arith, k.from j e)) in_run)

-- What the call returns: a valid bitmap of the same size with so many bits fewer set, in which the run
-- is free and every other bit is as it was.
abbrev pub Freed : Bitmap → ℕ → ℕ → Outcome Bitmap → Type 0
Freed b start bits o =
    (b' : Bitmap) × (o ≡ ok b')
    × IsValid b'
    × (taken b'.chunks + bits ≡ taken b.chunks)
    × (b'.size_bits ≡ b.size_bits)
    × Marked b'.chunks start bits b.chunks
    × (length b'.chunks ≡ length b.chunks)

give-Freed :
    {b b' : Bitmap} {n start : ℕ} (bits : ℕ)
    → IsValid b
    → Cleared b start n b'
    → n ≡ bits
    → Freed b start bits (ok (give_bits b' bits))
give-Freed {b = b} {b' = b'} {start = start} bits v c e = (
  give_bits b' bits,
  refl,
  record {
    are_words = c.are_words;
    used_taken = omega (arith, c.less, c.same_used, v.used_taken, v.used_le, v.size_small, e);
    used_le =
        omega (arith, c.less, c.same_used, c.same_size, v.used_taken, v.used_le, v.size_small, e);
    size_small = omega (arith, c.same_size, v.size_small);
    free_p_le = omega (arith, c.same_free, c.as_many, v.free_p_le);
  },
  omega (arith, c.less, e),
  c.same_size,
  subst (λ k. Marked b'.chunks start k b.chunks) e c.marked,
  c.as_many,
)

module _ (b : Bitmap) (start bits : ℕ) (run : RunTaken b start bits) (v : IsValid b)
    (inside : start + bits ≤ length b.chunks * 64) (pos : 0 < bits) where
  one-Freed :
      (m : Word)
      → Mask m (start % 64) bits
      → start % 64 + bits ≤ 64
      → Freed b start bits (do b' ← clear b (start / 64) m; ok (give_bits b' bits))
  one-Freed m k fits =
      let z =
        part-Taken b start bits run (start / 64) (start % 64) bits m k fits (omega arith)
          (omega arith) in
      rw (clear-inside b (start / 64) m (omega (arith, inside, pos))) (
        give-Freed bits v
          (Cleared-at {lo' = start} (omega arith) refl
            (cleared-Cleared b (start / 64) m v.are_words (omega (arith, inside, pos)) k fits z))
          refl)

  single-Freed :
      (m : Word)
      → Mask m (start % 64) bits
      → start % 64 + bits ≤ 64
      → Freed b start bits
          (do assert_taken b (start / 64) m; b' ← clear b (start / 64) m; ok (give_bits b' bits))
  single-Freed m k fits =
      let z =
        part-Taken b start bits run (start / 64) (start % 64) bits m k fits (omega arith)
          (omega arith) in
      rw (assert_taken-passes b (start / 64) m (omega (arith, inside, pos)) z) (one-Freed m k fits)

  full-chunk :
      (i : ℕ)
      → start ≤ i * 64
      → i * 64 + 64 ≤ start + bits
      → is_zero (and (complement (chunk_at b i)) ones) ≡ true
  full-chunk i le up =
      part-Taken b start bits run i 0 64 ones ones-Mask (omega arith) (omega arith) (omega arith)

  -- The chunks behind the two ends are those there were.
  other-chunk :
      (c d i : ℕ) (m k : Word)
      → c ≢ i
      → d ≢ i
      → chunk_at (cleared (cleared b c m) d k) i ≡ chunk_at b i
  unfolding cleared
  other-chunk c d i m k cn dn =
      get_or-set_ne (cleared b c m).chunks {i = d} {j = i} _ zeros dn
      ∙ get_or-set_ne b.chunks {i = c} {j = i} _ zeros cn

  next-chunk : (c d : ℕ) (m : Word) → c ≢ d → chunk_at (cleared b c m) d ≡ chunk_at b d
  unfolding cleared
  next-chunk c d m cn = get_or-set_ne b.chunks {i = c} {j = d} _ zeros cn

  many-Freed :
      (last span ends : ℕ) (sm em : Word)
      → last ≡ (start + bits - 1) / 64
      → start / 64 < last
      → span ≡ last - start / 64 - 1
      → Mask sm (start % 64) (64 - start % 64)
      → Mask em 0 ends
      → ends ≡ start + bits - last * 64
      → Freed b start bits (do
        assert_taken b (start / 64) sm
        assert_taken b last em
        b1 ← clear b (start / 64) sm
        b2 ← clear b1 last em
        if span == 0
            then ok (give_bits b2 bits)
            else if ltb (length b.chunks) (start / 64 + 1 + span)
            then fault
            else ok (give_bits (fill span (start / 64 + 1) zeros b2) bits))
  many-Freed last span ends sm em is_last more is_span ks ke is_ends =
      let first = start / 64 in
      let in1 : first < length b.chunks = omega (arith, inside, pos, is_last, more) in
      let in2 : last < length b.chunks = omega (arith, inside, pos, is_last) in
      let z1 =
        part-Taken b start bits run first (start % 64) (64 - start % 64) sm ks (omega arith)
          (omega arith) (omega (arith, is_last, more)) in
      let z2 =
        part-Taken b start bits run last 0 ends em ke (omega (arith, is_last, is_ends, pos))
          (omega (arith, more)) (omega (arith, is_ends, is_last, pos)) in
      let c1 =
        Cleared-at {lo' = start} (omega arith) refl
          (cleared-Cleared b first sm v.are_words in1 ks (omega arith) z1) in
      let in2' : last < length (cleared b first sm).chunks = omega (arith, in2, c1.as_many) in
      let z2' =
        subst (λ w. is_zero (and (complement w) em) ≡ true)
          (sym (next-chunk first last sm (λ e. omega (arith, e, more)))) z2 in
      let c2 = Cleared-at {lo' = last * 64} (omega arith) refl (
        cleared-Cleared (cleared b first sm) last em c1.are_words in2' ke
          (omega (arith, is_ends, is_last, pos)) z2') in
      let c3 =
        fill-Cleared span (cleared (cleared b first sm) last em) (first + 1) c2.are_words
          (omega (arith, in2, c1.as_many, c2.as_many, is_span, more))
          (λ i l u.
            ap (λ w. is_zero (and (complement w) ones))
              (other-chunk first last i sm em (λ e. omega (arith, e, l))
                (λ e. omega (arith, e, u, is_span, more)))
            ∙ full-chunk i (omega (arith, l)) (omega (arith, u, is_span, is_last, more, pos))) in
      rw
        (
          assert_taken-passes b first sm in1 z1,
          assert_taken-passes b last em in2 z2,
          clear-inside b first sm in1,
          clear-inside (cleared b first sm) last em in2',
        )
        (if-intro (Freed b start bits) (span == 0)
          (λ none.
            give-Freed bits v
              (Cleared-then c1 (Cleared-at (ground (arith, none, is_span, more)) refl c2))
              (ground (arith, none, is_span, is_ends, more, is_last, pos)))
          λ some.
            if-intro (Freed b start bits) (ltb (length b.chunks) (first + 1 + span))
              (λ out. absurd (ground (arith, out, is_span, more, in2)))
              λ fits.
                give-Freed bits v
                  (Cleared-then c1 (
                    Cleared-at {lo = (first + 1) * 64} (omega arith) refl (
                      Cleared-before {n = ends} (Cleared-at (omega (arith, is_span, more)) refl c2)
                        c3)))
                  (omega (arith, is_span, is_ends, more, is_last, pos)))

-- Giving back a run of at least one bit that lies in a valid bitmap, and all of whose bits are set,
-- fails no assertion: it returns a valid bitmap of the same size, in which the run is free and every
-- other bit is as it was, and exactly so many bits fewer are set and counted as used, as long as the bits of the chunks can be counted in a `size_t`.
pub free_bits_lem :
    (b : Bitmap) (start bits : ℕ)
    → IsValid b
    → 0 < bits
    → start + bits ≤ length b.chunks * 64
    → length b.chunks * 64 < u64
    → RunTaken b start bits
    → Freed b start bits (free_bits b start bits)
unfolding free_bits
free_bits_lem b start bits v pos inside fits run =
    let last = ((start + bits) % u64 + u64 - 1) % u64 / 64 in
    if-intro (Freed b start bits) (bits == 1)
      (λ e.
        let q : bits ≡ 1 = ground (arith, e) in
        subst
          (λ k.
            Freed b start bits (do
              b' ← clear b (start / 64) (shl_by (start % 64) (low_ones k))
              ok (give_bits b' k)))
          q
          (one-Freed b start bits run v inside pos _
            (shifted-Mask (start % 64) bits (omega (arith, q))) (omega (arith, q))))
      λ _.
        if-intro (Freed b start bits) (start / 64 == last)
          (λ e.
            let q : start / 64 ≡ last = ground (arith, e) in
            single-Freed b start bits run v inside pos _
              (single-Mask start bits pos (omega (arith, q, inside, fits, pos)))
              (omega (arith, q, inside, fits, pos)))
          λ n.
            many-Freed b start bits run v inside pos last ((last + u64 - start / 64 - 1) % u64)
              (start + bits - last * 64) _ _ (omega (arith, inside, fits, pos))
              (ground (arith, n, inside, fits, pos)) (ground (arith, n, inside, fits, pos))
              (high-Mask (start % 64) (omega arith))
              (end-Mask ((start + bits) % u64) (start + bits - last * 64)
                (ground (arith, inside, fits, pos)))
              refl
