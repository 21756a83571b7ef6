-- ===== src/Bitmap/Valid.antt =====
-- The invariant of a bitmap of src/utils/bitmap.c, and what `utils_bitmap_init` leaves.
use arax_g_rpc.Prelude.{
  ℕ, zero, suc, ◌+◌, ◌*◌, ◌/◌, ◌%◌, ◌≡◌, ◌<◌, ◌≤◌, refl, sym, List, [], ◌∷◌, length,
  length-replicate, arith, replicate,
}
use arax_g_rpc.Bitmap.{Bitmap, u64}
use arax_g_rpc.Bitmap.Words.{Word, zeros}
use arax_g_rpc.Bitmap.Popcount.{popcount-zero, popcount-falses}
use arax_g_rpc.Bitmap.Taken.{taken, AreWords}
use arax_g_rpc.Bitmap.{init, count_chunks}

-- What every bitmap that `init` makes and the calls change satisfies.
pub record IsValid (b : Bitmap) : Type 0 where
  pub are_words : AreWords b.chunks
  pub used_taken : b.used_bits ≡ taken b.chunks
  pub used_le : b.used_bits ≤ b.size_bits
  pub size_small : b.size_bits < u64
  pub free_p_le : b.free_p ≤ length b.chunks

init-words : (n : ℕ) → AreWords (replicate n zeros) × (taken (replicate n zeros) ≡ 0)
unfolding AreWords taken
init-words zero = (tt, refl)
init-words (suc n) =
    ((refl, (init-words n).0), ground (arith, (init-words n).1, popcount-falses 64))

pub init-IsValid :
    (size_bits : ℕ)
    → size_bits < u64
    → IsValid (init size_bits) × (taken (init size_bits).chunks ≡ 0)
unfolding init
init-IsValid size_bits small =
    let w = init-words ((size_bits + 63) % u64 / 64) in
    (
      record {
        are_words = w.0;
        used_taken = sym w.1;
        used_le = omega arith;
        size_small = small;
        free_p_le = omega arith;
      },
      w.1,
    )

-- A new bitmap of a size that does not wrap `size_t` when it is rounded up is valid, has the size asked
-- for, as many chunks of 64 bits as that size takes and no more, and none of its bits set.
pub init-sized :
    (size_bits : ℕ)
    → size_bits + 63 < u64
    → IsValid (init size_bits)
      × ((init size_bits).size_bits ≡ size_bits)
      × (size_bits ≤ length (init size_bits).chunks * 64)
      × (length (init size_bits).chunks * 64 < size_bits + 64)
      × (taken (init size_bits).chunks ≡ 0)
unfolding init
init-sized size_bits small =
    let (v, t) = init-IsValid size_bits (omega (arith, small)) in
    let l = length-replicate ((size_bits + 63) % u64 / 64) zeros in
    (v, refl, omega (arith, l, small), omega (arith, l, small), t)

-- The count that is made by reading the chunks is the number of bits set in them.
pub count_chunks_lem : (ws : List Word) (n : ℕ) → length ws ≤ n → count_chunks n ws ≡ taken ws
unfolding count_chunks taken
count_chunks_lem [] zero h = refl
count_chunks_lem [] (suc n) h = refl
count_chunks_lem (w ∷ ws) zero h = absurd (omega arith)
count_chunks_lem (w ∷ ws) (suc n) h =
    ground (arith, popcount-zero w, count_chunks_lem ws n (omega arith))
