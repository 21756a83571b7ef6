-- ===== src/Bitmap/Alloc.antt =====
-- `utils_bitmap_alloc_bits` of src/utils/bitmap.c: the count of used bits is the number of bits set.
use arax_g_rpc.Prelude.{
  if-intro, ℕ, zero, suc, false, ◌+◌, ◌-◌, ◌≡◌, ◌<◌, ◌≤◌, refl, subst, sym, Option, none, some,
  length, ◌==◌, ltb, if◌then◌else◌, arith,
}
use arax_g_rpc.Bitmap.{Bitmap, u64, find_start}
use arax_g_rpc.Bitmap.Taken.{taken, AreWords}
use arax_g_rpc.Bitmap.Accounts.{amount, Accounts, Accounts-none}
use arax_g_rpc.Bitmap.{alloc_bits, scan, free, or_else, found_at}
use arax_g_rpc.Bitmap.Big.{find_start-Accounts}
use arax_g_rpc.Bitmap.Valid.{IsValid}

-- A search that found nothing, and the next.
or_else-Accounts :
    {b : Bitmap} {bits : ℕ} (r : Bitmap × Option ℕ) (k : Bitmap → Bitmap × Option ℕ)
    → Accounts b bits r
    → Accounts b bits (k b)
    → Accounts b bits (or_else r k)
or_else-Accounts (b', some at) k h next = h
or_else-Accounts {b = b} {bits = bits} (b', none) k h next =
    subst (λ b0. Accounts b bits (k b0)) (sym (h.unfound refl)) next

scan-Accounts :
    (n : ℕ) (b : Bitmap) (bits c : ℕ)
    → AreWords b.chunks
    → n ≤ length b.chunks - c
    → b.used_bits + bits < u64
    → Accounts b bits (scan n b bits c)
unfolding scan
scan-Accounts zero b bits c words inside small = Accounts-none b bits words
scan-Accounts (suc n) b bits c words inside small =
    or_else-Accounts (find_start b bits c) (λ b'. scan n b' bits (c + 1))
      (find_start-Accounts b bits c words (omega arith) small)
      (scan-Accounts n b bits (c + 1) words (omega (arith, inside)) small)

found_at-IsValid :
    {b : Bitmap} {bits : ℕ} (r : Bitmap × Option ℕ)
    → IsValid b
    → b.used_bits + bits ≤ b.size_bits
    → Accounts b bits r
    → IsValid (found_at r).0
found_at-IsValid (b', none) v fits h = record {
  are_words = h.are_words;
  used_taken = omega (arith, h.more, h.used_more, v.used_taken);
  used_le = omega (arith, h.used_more, h.same_size, v.used_le);
  size_small = omega (arith, h.same_size, v.size_small);
  free_p_le = omega (arith, v.free_p_le, h.same_free, h.as_many);
}
found_at-IsValid (b', some at) v fits h = record {
  are_words = h.are_words;
  used_taken = omega (arith, h.more, h.used_more, v.used_taken);
  used_le = omega (arith, h.used_more, h.same_size, fits);
  size_small = omega (arith, h.same_size, v.size_small);
  free_p_le = omega (arith, h.until at refl, h.as_many);
}

-- What a call that asks for bits leaves: a valid bitmap of the same size, with so many more bits set as
-- it says that it found.
abbrev pub Allocated : Bitmap → ℕ → Bitmap × Option ℕ → Type 0
Allocated b bits r =
    IsValid r.0
    × (taken (r.0).chunks ≡ taken b.chunks + amount bits r.1)
    × ((r.0).size_bits ≡ b.size_bits)

found_at-Allocated :
    (b : Bitmap) (bits : ℕ) (r : Bitmap × Option ℕ)
    → IsValid b
    → b.used_bits + bits ≤ b.size_bits
    → Accounts b bits r
    → Allocated b bits (found_at r)
found_at-Allocated b bits (b', none) v fits h =
    (found_at-IsValid (b', none) v fits h, h.more, h.same_size)
found_at-Allocated b bits (b', some at) v fits h =
    (found_at-IsValid (b', some at) v fits h, h.more, h.same_size)

-- The search from the chunk at which the last call found its bits on, and then from the first chunk.
abbrev pub search_all : Bitmap → ℕ → Bitmap × Option ℕ
search_all b bits =
    or_else (scan (length b.chunks - b.free_p) b bits b.free_p) λ b'. scan b.free_p b' bits 0

pub search_all-Accounts :
    (b : Bitmap) (bits : ℕ)
    → IsValid b
    → b.used_bits + bits ≤ b.size_bits
    → Accounts b bits (search_all b bits)
search_all-Accounts b bits v fits =
    or_else-Accounts (scan (length b.chunks - b.free_p) b bits b.free_p)
      (λ b'. scan b.free_p b' bits 0)
      (scan-Accounts (length b.chunks - b.free_p) b bits b.free_p v.are_words (omega arith)
        (omega (arith, v.size_small, fits)))
      (scan-Accounts b.free_p b bits 0 v.are_words (omega (arith, v.free_p_le))
        (omega (arith, v.size_small, fits)))

pub enough-fits :
    (b : Bitmap) (bits : ℕ)
    → IsValid b
    → ltb (free b) bits ≡ false
    → b.used_bits + bits ≤ b.size_bits
unfolding free
enough-fits b bits v enough = ground (arith, enough, v.size_small, v.used_le)

-- A valid bitmap whose search starts from the first chunk again.
pub restart-IsValid : {b : Bitmap} → IsValid b → IsValid (record b { free_p = 0 })
restart-IsValid v = record {
  are_words = v.are_words;
  used_taken = v.used_taken;
  used_le = v.used_le;
  size_small = v.size_small;
  free_p_le = omega arith;
}

try-Allocated :
    (b : Bitmap) (bits : ℕ)
    → IsValid b
    → Allocated b bits (if ltb (free b) bits then (b, none) else found_at (search_all b bits))
try-Allocated b bits v =
    if-intro (Allocated b bits) (ltb (free b) bits) (λ _. (v, omega arith, refl))
      λ enough.
        let fits = enough-fits b bits v enough in
        found_at-Allocated b bits _ v fits (search_all-Accounts b bits v fits)

-- A call for bits keeps a valid bitmap valid, so that `used_bits` stays the number of bits set, and the
-- number of bits set grows by exactly the bits asked for where a place is found and by none where the
-- call answers that there is none. The size stays.
pub alloc_bits_lem : (b : Bitmap) (bits : ℕ) → IsValid b → Allocated b bits (alloc_bits b bits)
unfolding alloc_bits
alloc_bits_lem b bits v =
    if-intro
      (λ b0. Allocated b bits (
        if ltb (free b0) bits
        then (b0, none)
        else found_at (
            or_else (scan (length b.chunks - b0.free_p) b0 bits b0.free_p)
              λ b'. scan b0.free_p b' bits 0)))
      (b.free_p == length b.chunks)
      (λ _. try-Allocated (record b { free_p = 0 }) bits (restart-IsValid v))
      λ _. try-Allocated b bits v
