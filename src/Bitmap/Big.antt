-- ===== src/Bitmap/Big.antt =====
-- `find_start` of src/utils/bitmap.c: runs of any length.
use arax_g_rpc.Prelude.{
  ℕ, ◌+◌, ◌-◌, ◌/◌, ◌%◌, ◌≡◌, ◌<◌, ◌≤◌, true, not, length, ◌&&◌, ◌==◌, ltb, leb, if◌then◌else◌,
  arith,
}
use arax_g_rpc.Bitmap.{
  Bitmap, u64, chunk_at, find_end_small, find_start_big, find_start_span, find_start, all_free,
}
use arax_g_rpc.Bitmap.Words.{and, low_ones, high_ones, is_zero, is_full, clz}
use arax_g_rpc.Bitmap.Taken.{AreWords, chunk-length}
use arax_g_rpc.Bitmap.Search.{free_end-Free, end-Accounts, none_found, find_start_small-Accounts}
use arax_g_rpc.Bitmap.Accounts.{Accounts, Accounts-some, if-Accounts, found-Accounts}
use arax_g_rpc.Bitmap.Span.{span-Wrote}

module _ (b : Bitmap) (bits c : ℕ) (words : AreWords b.chunks) (inside : c < length b.chunks)
    (small : b.used_bits + bits < u64) where
  find_start_span-Accounts :
      (fe : ℕ)
      → fe ≤ 64
      → fe ≤ bits
      → c + 1 < length b.chunks
      → is_zero (and (high_ones (64 - fe)) (chunk_at b c)) ≡ true
      → Accounts b bits (find_start_span b bits c (bits - fe) (high_ones (64 - fe)) (64 - fe))
  unfolding find_start_span
  find_start_span-Accounts fe le fits more at_end =
      let rem = bits - fe in
      let span = rem / 64 in
      let last = rem % 64 in
      if-Accounts (leb (length b.chunks) (c + span + (if last == 0 then 0 else 1)))
        (λ _. none_found b bits c words inside small)
        λ room.
          if-Accounts (not (all_free span b (c + 1))) (λ _. none_found b bits c words inside small)
            λ empty.
              if-Accounts
                (not (last == 0) && not (is_zero (and (chunk_at b (c + 1 + span)) (low_ones last))))
                (λ _. none_found b bits c words inside small)
                λ e.
                  Accounts-some bits
                    (span-Wrote b c fe span last words (omega arith) (ground (arith, room)) le
                      at_end (ground (arith, empty)) e)
                    (omega arith) small (ground (arith, room))

  find_start_big-Accounts : 64 < bits → Accounts b bits (find_start_big b bits c)
  unfolding find_start_big
  find_start_big-Accounts big =
      let fe = if is_zero (chunk_at b c) then 64 else clz (chunk_at b c) in
      let ends = free_end-Free (chunk_at b c) (chunk-length b.chunks c words) in
      let none_here = none_found b bits c words inside small in
      if-Accounts (is_full (chunk_at b c)) (λ _. none_here)
        λ _.
          if-Accounts (is_zero (high_ones (64 - fe))) (λ _. none_here)
            λ _.
              if-Accounts (c + 1 == length b.chunks) (λ _. none_here)
                λ more.
                  if-Accounts (ltb (bits - fe) 65)
                    (λ part.
                      found-Accounts (find_end_small (bits - fe) (chunk_at b (c + 1)))
                        (λ _. none_here)
                        λ next e.
                          end-Accounts b bits c words inside small fe {next = next}
                            (omega (arith, ends.0, big)) (ground (arith, part)) ends.0 ends.1
                            (ground (arith, more)) e)
                    λ _.
                      find_start_span-Accounts fe ends.0 (omega (arith, ends.0, big))
                        (ground (arith, more)) ends.1

  pub find_start-Accounts : Accounts b bits (find_start b bits c)
  unfolding find_start
  find_start-Accounts =
      if-Accounts (ltb bits 65)
        (λ s. find_start_small-Accounts b bits c words inside small (ground (arith, s)))
        λ s. find_start_big-Accounts (ground (arith, s))
