-- ===== src/Bitmap/Masks.antt =====
-- Which bits the masks of `utils_bitmap_free_bits` hold (src/utils/bitmap.c).
use arax_g_rpc.Bitmap.Mask.{Mask, shifted-Mask, low-Mask, ones-Mask}
use arax_g_rpc.Prelude.{
  if-intro, subst, ◌%◌, ◌==◌, if◌then◌else◌, ℕ, suc, ◌+◌, ◌≡◌, ◌<◌, ◌≤◌, refl, ap, true, false, [],
  ◌∷◌, length, get_or, arith,
}
use arax_g_rpc.Bitmap.Words.{ones, low_ones, Word, and, complement, shl_by, popcount, is_zero}

-- A mask of bits that are all set.
pub mask-Taken :
    (w m : Word)
    → ((j : ℕ) → get_or m j false ≡ true → get_or w j false ≡ true)
    → is_zero (and (complement w) m) ≡ true
unfolding and complement is_zero
mask-Taken [] [] h = refl
mask-Taken [] (x ∷ m) h = refl
mask-Taken (x ∷ w) [] h = refl
mask-Taken (true ∷ w) (y ∷ m) h = mask-Taken w m (λ j e. h (suc j) e)
mask-Taken (false ∷ w) (true ∷ m) h = absurd (ground (arith, h 0 refl))
mask-Taken (false ∷ w) (false ∷ m) h = mask-Taken w m (λ j e. h (suc j) e)

pub length-complement : (w : Word) → length (complement w) ≡ length w
unfolding complement
length-complement [] = refl
length-complement (x ∷ w) = ap suc (length-complement w)

pub length-and : (a b : Word) → length a ≡ length b → length (and a b) ≡ length a
unfolding and
length-and [] [] h = refl
length-and [] (y ∷ b) h = absurd (omega arith)
length-and (x ∷ a) [] h = absurd (omega arith)
length-and (x ∷ a) (y ∷ b) h = omega (arith, length-and a b (omega arith))

-- Bits that are cleared where they are set.
pub popcount-cleared :
    (w m : Word)
    → length w ≡ length m
    → is_zero (and (complement w) m) ≡ true
    → popcount (and w (complement m)) + popcount m ≡ popcount w
unfolding and complement is_zero popcount
popcount-cleared [] [] l z = omega arith
popcount-cleared [] (y ∷ m) l z = absurd (omega arith)
popcount-cleared (x ∷ w) [] l z = absurd (omega arith)
popcount-cleared (true ∷ w) (true ∷ m) l z = omega (arith, popcount-cleared w m (omega arith) z)
popcount-cleared (true ∷ w) (false ∷ m) l z = omega (arith, popcount-cleared w m (omega arith) z)
popcount-cleared (false ∷ w) (true ∷ m) l z = cc
popcount-cleared (false ∷ w) (false ∷ m) l z = omega (arith, popcount-cleared w m (omega arith) z)

pub single-Mask :
    (start bits : ℕ)
    → 0 < bits
    → start % 64 + bits ≤ 64
    → Mask (if bits == 64 then ones else shl_by (start % 64) (low_ones bits)) (start % 64) bits
single-Mask start bits pos h =
    if-intro (λ m. Mask m (start % 64) bits) (bits == 64)
      (λ e.
        subst (λ k. Mask ones k bits) (ground (arith, e, h))
          (subst (Mask ones 0) (ground (arith, e)) ones-Mask))
      λ _. shifted-Mask (start % 64) bits h

pub end-Mask :
    (end ends : ℕ)
    → ends ≡ (if end % 64 == 0 then 64 else end % 64)
    → Mask (if end % 64 == 0 then ones else low_ones (end % 64)) 0 ends
end-Mask end ends q =
    if-intro (λ m. Mask m 0 ends) (end % 64 == 0)
      (λ e. subst (Mask ones 0) (ground (arith, e, q)) ones-Mask)
      λ e.
        subst (Mask (low_ones (end % 64)) 0) (ground (arith, e, q))
          (low-Mask (end % 64) (omega arith))
