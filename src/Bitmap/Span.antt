-- ===== src/Bitmap/Span.antt =====
-- The runs of more than two chunks (src/utils/bitmap.c, `find_start_big`).
use arax_g_rpc.Prelude.{
  if-intro, ℕ, zero, suc, ◌+◌, ◌-◌, ◌*◌, ◌≡◌, ◌<◌, ◌≤◌, refl, ◌∙◌, sym, subst, true, false, not,
  length, ◌&&◌, ◌==◌, if◌then◌else◌, arith, get_or-set_ne,
}
use arax_g_rpc.Bitmap.{Bitmap, put, chunk_at, fill, all_free}
use arax_g_rpc.Bitmap.Words.{zeros, ones, or, and, low_ones, high_ones, is_zero}
use arax_g_rpc.Bitmap.Popcount.{and_comm}
use arax_g_rpc.Bitmap.Taken.{AreWords, all_free-put, all_free-later, fill-before}
use arax_g_rpc.Bitmap.Wrote.{
  Wrote, Wrote-nothing, Wrote-then, Wrote-before, Wrote-at, or-Wrote, zero-Wrote,
}
use arax_g_rpc.Bitmap.Mask.{ones-Mask, low-Mask, high-Mask}

-- A run of free chunks that is filled.
fill-Wrote :
    (n : ℕ) (b : Bitmap) (c : ℕ)
    → AreWords b.chunks
    → all_free n b c ≡ true
    → c + n ≤ length b.chunks
    → Wrote b (c * 64) (n * 64) (fill n c ones b)
unfolding all_free fill
fill-Wrote zero b c s f h = Wrote-nothing b (c * 64) s
fill-Wrote (suc n) b c s f h =
    let first =
      Wrote-at {lo' = c * 64} (omega arith) refl
        (zero-Wrote b c ones s (omega arith) ones-Mask (omega arith) (ground (arith, f))) in
    Wrote-at {n = 64 + n * 64} refl (omega arith) (
      Wrote-then first (
        Wrote-at {lo' = c * 64 + 64} (omega arith) refl (
          fill-Wrote n (put b c ones) (c + 1) first.are_words
            (ground (arith, f, all_free-put n b c (c + 1) ones (omega arith)))
            (omega (arith, first.as_many)))))

-- The part of the last chunk.
last-Wrote :
    (b : Bitmap) (c last : ℕ)
    → AreWords b.chunks
    → last < 64
    → (if last == 0 then 0 else 1) + c ≤ length b.chunks
    → (not (last == 0) && not (is_zero (and (chunk_at b c) (low_ones last)))) ≡ false
    → Wrote b (c * 64) last (if last == 0 then b else put b c (or (chunk_at b c) (low_ones last)))
last-Wrote b c last s small h e =
    if-intro (Wrote b (c * 64) last) (last == 0)
      (λ z. Wrote-at refl (ground (arith, z)) (Wrote-nothing b (c * 64) s))
      λ z. Wrote-at (omega arith) refl (
        or-Wrote b c (low_ones last) s (ground (arith, z, h)) (low-Mask last (omega arith))
          (omega arith) (ground (arith, z, e, and_comm (chunk_at b c) (low_ones last))))

-- The whole run: the end of a chunk, chunks that are free, and the first bits of the last.
pub span-Wrote :
    (b : Bitmap) (c fe span last : ℕ)
    → AreWords b.chunks
    → last < 64
    → c + span + (if last == 0 then 0 else 1) < length b.chunks
    → fe ≤ 64
    → is_zero (and (high_ones (64 - fe)) (chunk_at b c)) ≡ true
    → all_free span b (c + 1) ≡ true
    → (not (last == 0) && not (is_zero (and (chunk_at b (c + 1 + span)) (low_ones last)))) ≡ false
    → let b1 =
        if last == 0
        then b
        else put b (c + 1 + span) (or (chunk_at b (c + 1 + span)) (low_ones last)) in
      let b2 = fill span (c + 1) ones b1 in
      Wrote b
        (c * 64 + (64 - fe))
        (last + span * 64 + fe)
        (put b2 c (or (chunk_at b2 c) (high_ones (64 - fe))))
span-Wrote b c fe span last s small more le free empty e =
    let at = c + 1 + span in
    let b1 = if last == 0 then b else put b at (or (chunk_at b at) (low_ones last)) in
    let w1 = last-Wrote b at last s small (ground (arith, more)) e in
    let still =
      if-intro (λ b'. all_free span b' (c + 1) ≡ true) (last == 0) {x = b}
        {y = put b at (or (chunk_at b at) (low_ones last))} (λ _. empty)
        λ _. all_free-later span b at (c + 1) _ (omega arith) ∙ empty in
    let same =
      fill-before span b1 c (c + 1) ones (omega arith)
      ∙ if-intro (λ b'. chunk_at b' c ≡ chunk_at b c) (last == 0) {x = b}
          {y = put b at (or (chunk_at b at) (low_ones last))} (λ _. refl)
          (λ _. get_or-set_ne b.chunks {i = at} {j = c} _ zeros (λ e. omega (arith, e))) in
    let w2 = fill-Wrote span b1 (c + 1) w1.are_words still (ground (arith, more, w1.as_many)) in
    let m = high-Mask (64 - fe) (omega arith) in
    Wrote-before
      (Wrote-at {lo' = c * 64 + (64 - fe) + fe} (omega arith) refl
        (Wrote-before {lo = (c + 1) * 64} (Wrote-at (omega arith) refl w1) w2))
      (Wrote-at refl (omega arith) (
        or-Wrote (fill span (c + 1) ones b1) c (high_ones (64 - fe)) w2.are_words
          (ground (arith, more, w1.as_many, w2.as_many)) m (omega arith)
          (subst (λ w. is_zero (and (high_ones (64 - fe)) w) ≡ true) (sym same) free)))
