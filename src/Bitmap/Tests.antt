-- ===== src/Bitmap/Tests.antt =====
-- The bitmap of src/utils/bitmap.c at concrete inputs.
use arax_g_rpc.Bitmap.Taken.{taken, AreWords}
use arax_g_rpc.Bitmap.Free.{RunTaken, Freed, free_bits_lem}
use arax_g_rpc.Prelude.{
  ℕ, zero, suc, ◌+◌, ◌*◌, ◌≤◌, ◌<◌, length, [], ◌∷◌, ◌≡◌, refl, Option, some, arith,
}
use arax_g_rpc.Prelude.Outcome.{Outcome, ok, ◌>>=◌}
use arax_g_rpc.Bitmap.{Bitmap, init, alloc_bits, free_bits, count_allocated}
use arax_g_rpc.Bitmap.Words.{low_ones, and, or, complement, shl_by, popcount, clz, is_zero, is_full}
use arax_g_rpc.Bitmap.Valid.{IsValid, init-IsValid, init-sized}
use arax_g_rpc.Bitmap.Reported.{Reported, alloc_bits-reports, free_bits-alloc_bits}
use arax_g_rpc.Bitmap.Alloc.{Allocated, alloc_bits_lem}

-- Room for 300 bits, of which 200 are asked for after ten.
abbrev ten_taken : Bitmap
ten_taken = (alloc_bits (init 300) 10).0

ten_taken-IsValid : IsValid ten_taken
ten_taken-IsValid = (alloc_bits_lem (init 300) 10 (init-IsValid 300 (omega arith)).0).0

alloc_bits_lem_example : Allocated ten_taken 200 (alloc_bits ten_taken 200)
alloc_bits_lem_example = alloc_bits_lem ten_taken 200 ten_taken-IsValid

count_test : count_allocated (alloc_bits ten_taken 200).0 ≡ 210
unfolding init alloc_bits count_allocated is_zero is_full clz and or popcount
count_test = refl

-- In a bitmap of 70 bits, 15 bits are found from bit 60 on, which end behind the last.
past_the_end : Outcome (Option ℕ)
unfolding init alloc_bits free_bits
past_the_end = do
  let first = alloc_bits (init 70) 10
  let second = alloc_bits first.0 50
  b ← free_bits second.0 0 10
  ok (alloc_bits b 15).1

past_the_end_test : past_the_end ≡ ok (some 60)
unfolding past_the_end is_zero is_full popcount and or complement shl_by clz
past_the_end_test = refl

init-sized_example :
    IsValid (init 300)
    × ((init 300).size_bits ≡ 300)
    × (300 ≤ length (init 300).chunks * 64)
    × (length (init 300).chunks * 64 < 300 + 64)
    × (taken (init 300).chunks ≡ 0)
init-sized_example = init-sized 300 (omega arith)

-- One chunk with ten bits taken.
abbrev ten_of_64 : Bitmap
ten_of_64 = record { free_p = 0; used_bits = 10; size_bits = 64; chunks = low_ones 10 ∷ [] }

ten_of_64-IsValid : IsValid ten_of_64
unfolding taken AreWords popcount
ten_of_64-IsValid = record {
  are_words = (refl, tt);
  used_taken = refl;
  used_le = omega arith;
  size_small = omega arith;
  free_p_le = omega arith;
}

three-RunTaken : RunTaken ten_of_64 0 3
three-RunTaken zero l u = refl
three-RunTaken (suc zero) l u = refl
three-RunTaken (suc (suc zero)) l u = refl
three-RunTaken (suc (suc (suc i))) l u = absurd (omega arith)

free_bits_lem_example : Freed ten_of_64 0 3 (free_bits ten_of_64 0 3)
free_bits_lem_example =
    free_bits_lem ten_of_64 0 3 ten_of_64-IsValid (omega arith) (omega arith) (omega arith)
      three-RunTaken

alloc_bits-reports_example : Reported ten_taken 200 (alloc_bits ten_taken 200)
alloc_bits-reports_example = alloc_bits-reports ten_taken 200 ten_taken-IsValid

ten_found : alloc_bits (init 300) 10 ≡ (ten_taken, some 0)
unfolding init alloc_bits is_zero is_full clz and or popcount
ten_found = refl

free_bits-alloc_bits_example :
    (b : Bitmap) × (free_bits ten_taken 0 10 ≡ ok b)
    × IsValid b
    × (b.chunks ≡ (init 300).chunks)
    × (b.used_bits ≡ (init 300).used_bits)
    × (b.size_bits ≡ (init 300).size_bits)
unfolding init
free_bits-alloc_bits_example =
    free_bits-alloc_bits (init 300) 10 (init-IsValid 300 (omega arith)).0 (omega arith)
      (omega arith) ten_found
