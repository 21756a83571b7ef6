-- ===== src/Bitmap/Same.antt =====
-- Chunks of src/utils/bitmap.c are their bits.
use arax_g_rpc.Prelude.{
  ℕ, suc, ◌+◌, ◌/◌, ◌%◌, ◌≡◌, ◌<◌, refl, ap, ap₂, sym, ◌∙◌, false, List, [], ◌∷◌, length, get_or,
  inl, inr, dec_lt, arith,
}
use arax_g_rpc.Bitmap.Words.{Word, zeros}
use arax_g_rpc.Bitmap.Taken.{AreWords}
use arax_g_rpc.Bitmap.Marked.{bit, Marked}

same_word :
    (w v : Word)
    → length w ≡ length v
    → ((j : ℕ) → j < length w → get_or w j false ≡ get_or v j false)
    → w ≡ v
same_word [] [] l h = refl
same_word [] (y ∷ v) l h = absurd (omega arith)
same_word (x ∷ w) [] l h = absurd (omega arith)
same_word (x ∷ w) (y ∷ v) l h =
    ap₂ ◌∷◌ (h 0 (omega arith)) (same_word w v (omega arith) λ j s. h (suc j) (omega arith))

bit_head : (w : Word) (ws : List Word) (j : ℕ) → j < 64 → bit (w ∷ ws) j ≡ get_or w j false
bit_head w ws j s =
    ap (λ c. get_or (get_or (w ∷ ws) c zeros) (j % 64) false) {y = 0} (omega arith)
    ∙ ap (λ i. get_or w i false) (omega arith)

bit_tail : (w : Word) (ws : List Word) (i : ℕ) → bit (w ∷ ws) (64 + i) ≡ bit ws i
bit_tail w ws i =
    ap (λ c. get_or (get_or (w ∷ ws) c zeros) ((64 + i) % 64) false) {y = suc (i / 64)}
      (omega arith)
    ∙ ap (λ k. get_or (get_or ws (i / 64) zeros) k false) (omega arith)

-- As many words with the same bits are the same words.
same_bits :
    (xs ys : List Word)
    → AreWords xs
    → AreWords ys
    → length xs ≡ length ys
    → ((i : ℕ) → bit xs i ≡ bit ys i)
    → xs ≡ ys
unfolding AreWords
same_bits [] [] s t l h = refl
same_bits [] (y ∷ ys) s t l h = absurd (omega arith)
same_bits (x ∷ xs) [] s t l h = absurd (omega arith)
same_bits (x ∷ xs) (y ∷ ys) s t l h =
    ap₂ ◌∷◌
      (same_word x y (s.0 ∙ sym t.0) λ j a.
        let small : j < 64 = omega (arith, s.0, a) in
        sym (bit_head x xs j small) ∙ h j ∙ bit_head y ys j small)
      (same_bits xs ys s.1 t.1 (omega arith)
        λ i. sym (bit_tail x xs i) ∙ h (64 + i) ∙ bit_tail y ys i)

-- A run that is set and then freed leaves the chunks as they were.
pub Marked-undone :
    {xs ys zs : List Word} {lo n : ℕ}
    → AreWords xs
    → AreWords zs
    → length zs ≡ length xs
    → Marked xs lo n ys
    → Marked zs lo n ys
    → zs ≡ xs
Marked-undone {xs = xs} {zs = zs} {lo = lo} {n = n} s t l f g = same_bits zs xs t s l λ i.
    elim (dec_lt i lo) [
      | yes p ↦ sym (g.other i (inl p)) ∙ f.other i (inl p)
      | no p ↦ elim (dec_lt i (lo + n)) [
        | yes q ↦ g.was i (omega (arith, p)) q ∙ sym (f.was i (omega (arith, p)) q)
        | no q ↦ sym (g.other i (inr (omega (arith, q)))) ∙ f.other i (inr (omega (arith, q)))
      ]
    ]
