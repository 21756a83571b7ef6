-- ===== src/Bitmap/Search.antt =====
-- `find_start` of src/utils/bitmap.c: what it finds was free, and it is counted.
use arax_g_rpc.Prelude.{
  ℕ, suc, ◌+◌, ◌-◌, ◌*◌, ◌%◌, ◌≡◌, ◌<◌, ◌≤◌, refl, sym, subst, true, false, none, some, length,
  ◌==◌, leb, if◌then◌else◌, arith, Bool-cases, inl, inr, get_or-set_ne,
}
use arax_g_rpc.Bitmap.{
  Bitmap, u64, put, take_bits, chunk_at, gap, find_end_small, usable_bits, find_start_small,
}
use arax_g_rpc.Bitmap.Words.{
  Word, zeros, or, and, low_ones, high_ones, popcount, is_zero, is_full, clz,
}
use arax_g_rpc.Bitmap.Popcount.{
  popcount-zero, disjoint-or, popcount-usable, clz-le, clz-Free, popcount-clz, high-Free,
}
use arax_g_rpc.Bitmap.Mask.{high-Mask}
use arax_g_rpc.Bitmap.Taken.{AreWords, chunk-length}
use arax_g_rpc.Bitmap.Wrote.{
  Wrote, Wrote-before, Wrote-at, or-Wrote, zero-Wrote, gap-Found, first-Mask, find_end_small-Wrote,
}
use arax_g_rpc.Bitmap.Accounts.{Accounts, Accounts-none, Accounts-some, if-Accounts, found-Accounts}

usable-disjoint :
    (b : Bitmap) (c : ℕ) (m : Word)
    → AreWords b.chunks
    → is_zero (and m (usable_bits b c)) ≡ true
    → is_zero (and m (chunk_at b c)) ≡ true
unfolding usable_bits
usable-disjoint b c m s z = ground (
  arith,
  z,
  chunk-length b.chunks c s,
  (high-Mask (b.size_bits % 64) (omega arith)).size,
  disjoint-or m (chunk_at b c) (high_ones (b.size_bits % 64)),
)

usable-zero :
    (b : Bitmap) (c : ℕ)
    → AreWords b.chunks
    → is_zero (usable_bits b c) ≡ true
    → is_zero (chunk_at b c) ≡ true
unfolding usable_bits
usable-zero b c s z = ground (
  arith,
  z,
  chunk-length b.chunks c s,
  (high-Mask (b.size_bits % 64) (omega arith)).size,
  popcount-usable (chunk_at b c) (high_ones (b.size_bits % 64)),
)

-- The free bits at the end of a word, as `free_end` counts them.
pub free_end-Free :
    (w : Word)
    → length w ≡ 64
    → let fe = if is_zero w then 64 else clz w in
      (fe ≤ 64) × (is_zero (and (high_ones (64 - fe)) w) ≡ true)
free_end-Free w l = elim (Bool-cases (is_zero w)) [
  | inl z ↦ (ground (arith, z), ground (arith, z, high-Free 0 64 w z))
  | inr z ↦ (
    ground (arith, z, l, clz-le w),
    ground (arith, z, l, high-Free (64 - clz w) (64 - (64 - clz w)) w, clz-Free w),
  )
]

-- Not the final chunk, and fewer bits free in it than are asked for.
free_end-short :
    (b : Bitmap) (bits c : ℕ)
    → AreWords b.chunks
    → (c + 1 == length b.chunks) ≡ false
    → leb bits (64 - popcount (usable_bits b c)) ≡ false
    → (if is_zero (chunk_at b c) then 64 else clz (chunk_at b c)) ≤ bits
unfolding usable_bits
free_end-short b bits c s more short = ground (
  arith,
  more,
  short,
  popcount-clz (chunk_at b c),
  chunk-length b.chunks c s,
  popcount-zero (chunk_at b c),
)

-- The end of one chunk and a part of the next.
two-Wrote :
    (b : Bitmap) (c f r : ℕ) {next : Word}
    → AreWords b.chunks
    → c + 1 < length b.chunks
    → f ≤ 64
    → r ≤ 64
    → is_zero (and (high_ones (64 - f)) (chunk_at b c)) ≡ true
    → find_end_small r (chunk_at b (c + 1)) ≡ some next
    → Wrote b
        (c * 64 + (64 - f))
        (r + f)
        (put (put b (c + 1) next) c (or (chunk_at b c) (high_ones (64 - f))))
two-Wrote b c f r {next = next} s h le fits z e =
    let first = find_end_small-Wrote b (c + 1) r {next = next} s h fits e in
    let same = get_or-set_ne b.chunks {i = c + 1} {j = c} next zeros (λ e. omega (arith, e)) in
    let free = subst (λ w. is_zero (and (high_ones (64 - f)) w) ≡ true) (sym same) z in
    let k = high-Mask (64 - f) (omega arith) in
    Wrote-before (Wrote-at {lo' = c * 64 + (64 - f) + f} (omega arith) refl first) (
      subst
        (λ w.
          Wrote (put b (c + 1) next) (c * 64 + (64 - f)) f
            (put (put b (c + 1) next) c (or w (high_ones (64 - f)))))
        same
        (Wrote-at refl (omega arith) (
          or-Wrote (put b (c + 1) next) c (high_ones (64 - f)) first.are_words
            (omega (arith, first.as_many, h)) k (omega arith) free)))

module _ (b : Bitmap) (bits c : ℕ) (words : AreWords b.chunks) (inside : c < length b.chunks)
    (small : b.used_bits + bits < u64) where
  pub none_found : Accounts b bits (b, none)
  none_found = Accounts-none b bits words

  -- The end of the chunk and the first bits of the next.
  pub end-Accounts :
      (fe : ℕ) {next : Word}
      → fe ≤ bits
      → bits - fe ≤ 64
      → fe ≤ 64
      → is_zero (and (high_ones (64 - fe)) (chunk_at b c)) ≡ true
      → c + 1 < length b.chunks
      → find_end_small (bits - fe) (chunk_at b (c + 1)) ≡ some next
      → Accounts b bits (
        take_bits (put (put b (c + 1) next) c (or (chunk_at b c) (high_ones (64 - fe)))) bits,
        some (c * 64 + (64 - fe)),
      )
  end-Accounts fe {next = next} le fits small_fe free more e =
      Accounts-some bits
        (two-Wrote b c fe (bits - fe) {next = next} words more small_fe fits free e) (omega arith)
        small (omega (arith, more))

  pub find_start_small-Accounts : bits ≤ 64 → Accounts b bits (find_start_small b bits c)
  unfolding find_start_small
  find_start_small-Accounts fits =
      let chunk = chunk_at b c in
      let fe = if is_zero chunk then 64 else clz chunk in
      let ends = free_end-Free chunk (chunk-length b.chunks c words) in
      if-Accounts (is_zero (usable_bits b c))
        (λ z.
          Accounts-some bits
            (Wrote-at {lo' = c * 64} (omega arith) refl (
              zero-Wrote b c _ words inside (first-Mask bits fits) (omega (arith, fits))
                (usable-zero b c words z)))
            refl small (omega arith))
        λ _.
          if-Accounts (is_full chunk) (λ _. none_found)
            λ _.
              if-Accounts (leb bits (64 - popcount (usable_bits b c)))
                (λ _.
                  found-Accounts (gap (suc (64 - bits)) (low_ones bits) (usable_bits b c) 0)
                    (λ _. none_found)
                    λ found e.
                      let g =
                        gap-Found bits (64 - bits) 0 (usable_bits b c) {found = found} (omega arith)
                          e in
                      Accounts-some bits
                        (or-Wrote b c found.0 words inside g.0 g.2
                          (usable-disjoint b c found.0 words g.1))
                        refl small (omega (arith, g.2)))
                λ short.
                  if-Accounts (fe == 0) (λ _. none_found)
                    λ _.
                      if-Accounts (c + 1 == length b.chunks) (λ _. none_found)
                        λ more.
                          found-Accounts (find_end_small (bits - fe) (chunk_at b (c + 1)))
                            (λ _. none_found)
                            λ next e.
                              end-Accounts fe {next = next}
                                (free_end-short b bits c words more short) (omega arith) ends.0
                                ends.1 (ground arith) e
