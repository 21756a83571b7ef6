-- ===== src/Bitmap/Taken.antt =====
-- How many bits of a bitmap are taken, over its chunks (src/utils/bitmap.c).
use arax_g_rpc.Prelude.{
  ℕ, zero, suc, ◌+◌, ◌≡◌, ◌<◌, ◌≤◌, refl, ap₂, ◌∙◌, List, [], ◌∷◌, length, get_or-set_ne, get_or,
  set, ◌&&◌, arith,
}
use arax_g_rpc.Bitmap.{Bitmap, all_free, fill, put, chunk_at}
use arax_g_rpc.Bitmap.Words.{Word, zeros, popcount, is_zero}

unfoldable pub taken : List Word → ℕ
taken [] = 0
taken (w ∷ ws) = popcount w + taken ws

-- Every chunk has sixty-four bits.
unfoldable pub AreWords : List Word → Type 0
AreWords [] = Unit {0}
AreWords (w ∷ ws) = (length w ≡ 64) × AreWords ws

pub chunk-length : (ws : List Word) (c : ℕ) → AreWords ws → length (get_or ws c zeros) ≡ 64
unfolding AreWords
chunk-length [] c s = refl
chunk-length (w ∷ ws) zero s = s.0
chunk-length (w ∷ ws) (suc c) s = chunk-length ws c s.1

pub set-AreWords :
    (ws : List Word) (c : ℕ) (w : Word) → AreWords ws → length w ≡ 64 → AreWords (set ws c w)
unfolding AreWords
set-AreWords [] c w s l = s
set-AreWords (x ∷ ws) zero w s l = (l, s.1)
set-AreWords (x ∷ ws) (suc c) w s l = (s.0, set-AreWords ws c w s.1 l)

pub taken-set :
    (ws : List Word) (c : ℕ) (w : Word)
    → c < length ws
    → taken (set ws c w) + popcount (get_or ws c zeros) ≡ taken ws + popcount w
unfolding taken
taken-set [] c w h = absurd (omega arith)
taken-set (x ∷ ws) zero w h = omega arith
taken-set (x ∷ ws) (suc c) w h = omega (arith, taken-set ws c w (omega arith))

get_or-set_other :
    (ws : List Word) (i j : ℕ) (w : Word) → i < j → get_or (set ws i w) j zeros ≡ get_or ws j zeros
get_or-set_other [] i j w h = refl
get_or-set_other (x ∷ ws) i zero w h = absurd (omega arith)
get_or-set_other (x ∷ ws) zero (suc j) w h = refl
get_or-set_other (x ∷ ws) (suc i) (suc j) w h = get_or-set_other ws i j w (omega arith)

-- Writes to one chunk leave the later ones as free as they were.
pub all_free-put :
    (n : ℕ) (b : Bitmap) (i c : ℕ) (w : Word) → i < c → all_free n (put b i w) c ≡ all_free n b c
unfolding all_free
all_free-put zero b i c w h = refl
all_free-put (suc n) b i c w h =
    ap₂ (λ u v. is_zero u && v) (get_or-set_other b.chunks i c w h)
      (all_free-put n b i (c + 1) w (omega arith))

-- And writes to later chunks.
pub all_free-later :
    (n : ℕ) (b : Bitmap) (i c : ℕ) (w : Word)
    → c + n ≤ i
    → all_free n (put b i w) c ≡ all_free n b c
unfolding all_free
all_free-later zero b i c w h = refl
all_free-later (suc n) b i c w h =
    ap₂ (λ u v. is_zero u && v)
      (get_or-set_ne b.chunks {i = i} {j = c} w zeros (λ e. omega (arith, e)))
      (all_free-later n b i (c + 1) w (omega arith))

-- A run that is filled leaves the chunks before it alone.
pub fill-before :
    (n : ℕ) (b : Bitmap) (i c : ℕ) (w : Word) → i < c → chunk_at (fill n c w b) i ≡ chunk_at b i
unfolding fill
fill-before zero b i c w h = refl
fill-before (suc n) b i c w h =
    fill-before n (put b c w) i (c + 1) w (omega arith)
    ∙ get_or-set_ne b.chunks {i = c} {j = i} w zeros (λ e. omega (arith, e))
