-- ===== src/Bitmap.antt =====
-- src/utils/bitmap.c and bitmap.h: the allocator of runs of bits. The spinlock is held for the whole of
-- `alloc_bits` and `free_bits`, so each is one step. A pointer to a chunk is its index in `chunks`, and
-- `end` is their number. BITMAP_NOT_FOUND as a result is `none`.
pub mod Tests
pub mod Words
pub mod Popcount
pub mod Mask
pub mod Marked
pub mod Same
pub mod Taken
pub mod Wrote
pub mod Accounts
pub mod Search
pub mod Span
pub mod Big
pub mod Valid
pub mod Alloc
pub mod Masks
pub mod Cleared
pub mod Free
pub mod Reported
use arax_g_rpc.Prelude.{
  ℕ, zero, suc, ◌+◌, ◌-◌, ◌*◌, ◌/◌, ◌%◌, ◌^◌, Bool, true, false, not, ◌&&◌, ◌||◌, List, [], ◌∷◌,
  Option, none, some, ltb, leb, ◌==◌, if◌then◌else◌, length, get_or, get_elem?, set, replicate,
}
use arax_g_rpc.Prelude.Outcome.{Outcome, ok, fault, ◌>>=◌, ◌>>◌, arax_assert}
use arax_g_rpc.Bitmap.Words.{
  Word, zeros, ones, low_ones, high_ones, and, or, complement, shl, popcount, clz, is_zero, is_full,
  shl_by,
}

abbrev pub u64 : ℕ
u64 = 2 ^ 64

-- `utils_bitmap_s`
pub record Bitmap : Type 0 where
  pub free_p : ℕ
  pub used_bits : ℕ
  pub size_bits : ℕ
  pub chunks : List Word

unfoldable pub init : ℕ → Bitmap
init size_bits = record {
  free_p = 0;
  used_bits = 0;
  size_bits = size_bits;
  chunks = replicate ((size_bits + 63) % u64 / 64) zeros;
}

unfoldable pub size : Bitmap → ℕ
size bmp = bmp.size_bits

unfoldable pub used : Bitmap → ℕ
used bmp = bmp.used_bits

unfoldable pub free : Bitmap → ℕ
free bmp = (bmp.size_bits + u64 - bmp.used_bits) % u64

abbrev pub chunk_at : Bitmap → ℕ → Word
chunk_at bmp c = get_or bmp.chunks c zeros

abbrev pub put : Bitmap → ℕ → Word → Bitmap
put bmp c w = record bmp { chunks = set bmp.chunks c w }

-- `bmp->used_bits += bits`
abbrev pub take_bits : Bitmap → ℕ → Bitmap
take_bits bmp bits = record bmp { used_bits = (bmp.used_bits + bits) % u64 }

-- The new chunk where its first bits were free.
unfoldable pub find_end_small : ℕ → Word → Option Word
find_end_small bits chunk =
    let mask = if bits == 64 then ones else low_ones bits in
    if is_zero (and mask chunk) then some (or chunk mask) else none

-- The loop over shifts, with the rounds left: the mask and the shift of the first gap.
unfoldable pub gap : ℕ → Word → Word → ℕ → Option (Word × ℕ)
gap zero mask usable shift = none
gap (suc rounds) mask usable shift =
    let rest = gap rounds (shl mask) usable (shift + 1) in
    if is_zero (and mask usable) then some (mask, shift) else rest

-- The bits of a chunk that are not to be used: those taken and, in the final chunk, those past the size.
unfoldable pub usable_bits : Bitmap → ℕ → Word
usable_bits bmp c =
    if (c + 1 == length bmp.chunks) && not (bmp.size_bits % 64 == 0)
    then or (chunk_at bmp c) (high_ones (bmp.size_bits % 64))
    else chunk_at bmp c

unfoldable pub find_start_small : Bitmap → ℕ → ℕ → Bitmap × Option ℕ
unfolding usable_bits gap find_end_small
find_start_small bmp bits c =
    let chunk = chunk_at bmp c in
    let usable = usable_bits bmp c in
    if is_zero usable
    then (take_bits (put bmp c (if bits == 64 then ones else low_ones bits)) bits, some (c * 64))
    else if is_full chunk
    then (bmp, none)
    else if leb bits (64 - popcount usable)
    then elim (gap (suc (64 - bits)) (low_ones bits) usable 0) [
      | none ↦ (bmp, none)
      | some found ↦ (take_bits (put bmp c (or chunk found.0)) bits, some (c * 64 + found.1))
    ]
    else let free_end = if is_zero chunk then 64 else clz chunk in
      if free_end == 0
      then (bmp, none)
      else if c + 1 == length bmp.chunks
      then (bmp, none)
      else elim (find_end_small (bits - free_end) (chunk_at bmp (c + 1))) [
        | none ↦ (bmp, none)
        | some next ↦ (
          take_bits (put (put bmp (c + 1) next) c (or chunk (high_ones (64 - free_end)))) bits,
          some (c * 64 + (64 - free_end)),
        )
      ]

-- Whether `n` chunks from `c` on are empty.
unfoldable pub all_free : ℕ → Bitmap → ℕ → Bool
all_free zero bmp c = true
all_free (suc n) bmp c = is_zero (chunk_at bmp c) && all_free n bmp (c + 1)

-- `memset` of `n` chunks from `c` on
unfoldable pub fill : ℕ → ℕ → Word → Bitmap → Bitmap
fill zero c w bmp = bmp
fill (suc n) c w bmp = fill n (c + 1) w (put bmp c w)

-- A run of whole chunks and a last part.
unfoldable pub find_start_span : Bitmap → ℕ → ℕ → ℕ → Word → ℕ → Bitmap × Option ℕ
unfolding all_free fill
find_start_span bmp bits c remainder first_mask free_end =
    let span = remainder / 64 in
    let last = remainder % 64 in
    let has_last = if last == 0 then 0 else 1 in
    let citr = c + 1 + span in
    if leb (length bmp.chunks) (c + span + has_last)
    then (bmp, none)
    else if not (all_free span bmp (c + 1))
    then (bmp, none)
    else if not (last == 0) && not (is_zero (and (chunk_at bmp citr) (low_ones last)))
    then (bmp, none)
    else let b1 =
        if last == 0 then bmp else put bmp citr (or (chunk_at bmp citr) (low_ones last)) in
      let b2 = fill span (c + 1) ones b1 in
      (take_bits (put b2 c (or (chunk_at b2 c) first_mask)) bits, some (c * 64 + free_end))

unfoldable pub find_start_big : Bitmap → ℕ → ℕ → Bitmap × Option ℕ
unfolding find_end_small find_start_span
find_start_big bmp bits c =
    let chunk = chunk_at bmp c in
    let free_end = if is_zero chunk then 64 else clz chunk in
    let remainder = bits - free_end in
    let first_mask = high_ones (64 - free_end) in
    if is_full chunk
    then (bmp, none)
    else if is_zero first_mask
    then (bmp, none)
    else if c + 1 == length bmp.chunks
    then (bmp, none)
    else if ltb remainder 65
    then elim (find_end_small remainder (chunk_at bmp (c + 1))) [
      | none ↦ (bmp, none)
      | some next ↦ (
        take_bits (put (put bmp (c + 1) next) c (or chunk first_mask)) bits,
        some (c * 64 + (64 - free_end)),
      )
    ]
    else find_start_span bmp bits c remainder first_mask (64 - free_end)

unfoldable pub find_start : Bitmap → ℕ → ℕ → Bitmap × Option ℕ
unfolding find_start_small find_start_big
find_start bmp bits c =
    if ltb bits 65 then find_start_small bmp bits c else find_start_big bmp bits c

abbrev pub or_else : Bitmap × Option ℕ → (Bitmap → Bitmap × Option ℕ) → Bitmap × Option ℕ
or_else (b, none) k = k b
or_else (b, some s) k = (b, some s)

-- The loop over `n` chunks from `c` on, up to the first at which the bits are found.
unfoldable pub scan : ℕ → Bitmap → ℕ → ℕ → Bitmap × Option ℕ
unfolding find_start
scan zero bmp bits c = (bmp, none)
scan (suc n) bmp bits c = or_else (find_start bmp bits c) λ b. scan n b bits (c + 1)

abbrev pub found_at : Bitmap × Option ℕ → Bitmap × Option ℕ
found_at (b, none) = (b, none)
found_at (b, some s) = (record b { free_p = s / 64 }, some s)

unfoldable pub alloc_bits : Bitmap → ℕ → Bitmap × Option ℕ
unfolding free scan
alloc_bits bmp bits =
    let n = length bmp.chunks in
    let b = if bmp.free_p == n then record bmp { free_p = 0 } else bmp in
    if ltb (free b) bits
    then (b, none)
    else found_at (or_else (scan (n - b.free_p) b bits b.free_p) λ b'. scan b.free_p b' bits 0)

-- A chunk that is read and written; past the end of the bitmap a fault.
unfoldable pub chunk : Bitmap → ℕ → Outcome Word
chunk bmp c = elim (get_elem? bmp.chunks c) [ none ↦ fault | some w ↦ ok w ]

-- `bmp->used_bits -= bits`
abbrev pub give_bits : Bitmap → ℕ → Bitmap
give_bits bmp bits = record bmp { used_bits = (bmp.used_bits + u64 - bits) % u64 }

unfoldable pub clear : Bitmap → ℕ → Word → Outcome Bitmap
unfolding chunk
clear bmp c mask = do w ← chunk bmp c; ok (put bmp c (and w (complement mask)))

-- The assertion that all bits of the mask are taken.
unfoldable pub assert_taken : Bitmap → ℕ → Word → Outcome (Unit {0})
unfolding chunk
assert_taken bmp c mask = do w ← chunk bmp c; arax_assert (is_zero (and (complement w) mask))

unfoldable pub free_bits : Bitmap → ℕ → ℕ → Outcome Bitmap
unfolding clear assert_taken fill
free_bits bmp start bits =
    let first = start / 64 in
    let end = (start + bits) % u64 in
    let last = (end + u64 - 1) % u64 / 64 in
    let span = (last + u64 - first - 1) % u64 in
    let single = if bits == 64 then ones else shl_by (start % 64) (low_ones bits) in
    let start_mask = high_ones (start % 64) in
    let end_mask = if end % 64 == 0 then ones else low_ones (end % 64) in
    if bits == 1
    then (do b ← clear bmp first (shl_by (start % 64) (low_ones 1)); ok (give_bits b 1))
    else if first == last
    then (do assert_taken bmp first single; b ← clear bmp first single; ok (give_bits b bits))
    else do
      assert_taken bmp first start_mask
      assert_taken bmp last end_mask
      b1 ← clear bmp first start_mask
      b2 ← clear b1 last end_mask
      if span == 0
          then ok (give_bits b2 bits)
          else if ltb (length bmp.chunks) (first + 1 + span)
          then fault
          else ok (give_bits (fill span (first + 1) zeros b2) bits)

-- `utils_bitmap_count_allocated`, over the first `n` chunks
unfoldable pub count_chunks : ℕ → List Word → ℕ
count_chunks zero ws = 0
count_chunks (suc n) [] = 0
count_chunks (suc n) (w ∷ ws) = (if is_zero w then 0 else popcount w) + count_chunks n ws

unfoldable pub count_allocated : Bitmap → ℕ
unfolding count_chunks
count_allocated bmp = count_chunks ((bmp.size_bits + 63) / 64) bmp.chunks
