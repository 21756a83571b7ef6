-- ===== src/Bitmap/Reported.antt =====
-- The run of bits that `utils_bitmap_alloc_bits` of src/utils/bitmap.c reports, and giving it back.
use arax_g_rpc.Prelude.{
  if-intro, ℕ, ◌+◌, ◌-◌, ◌*◌, ◌≡◌, ◌<◌, ◌≤◌, refl, ap, subst, ◌∙◌, Option, none, some, length, ltb,
  ◌==◌, if◌then◌else◌, arith,
}
use arax_g_rpc.Prelude.Outcome.{ok}
use arax_g_rpc.Bitmap.{Bitmap, u64, alloc_bits, free_bits, scan, free, or_else, found_at}
use arax_g_rpc.Bitmap.Taken.{taken}
use arax_g_rpc.Bitmap.Marked.{Marked}
use arax_g_rpc.Bitmap.Same.{Marked-undone}
use arax_g_rpc.Bitmap.Accounts.{amount, Accounts}
use arax_g_rpc.Bitmap.Valid.{IsValid}
use arax_g_rpc.Bitmap.Alloc.{
  alloc_bits_lem, search_all, search_all-Accounts, enough-fits, restart-IsValid,
}
use arax_g_rpc.Bitmap.Free.{free_bits_lem}

-- No run is reported and no bit changed, or the run that is reported lies in the chunks, was free, and
-- is what was set.
abbrev pub Reported : Bitmap → ℕ → Bitmap × Option ℕ → Type 0
Reported b bits r =
    (length (r.0).chunks ≡ length b.chunks)
    × (r.1 ≡ none → (r.0).chunks ≡ b.chunks)
    × ((at : ℕ)
        → r.1 ≡ some at
        → (at + bits ≤ length b.chunks * 64) × Marked b.chunks at bits (r.0).chunks)

found_at-Reported :
    {b : Bitmap} {bits : ℕ} (r : Bitmap × Option ℕ)
    → Accounts b bits r
    → Reported b bits (found_at r)
found_at-Reported (b', none) h =
    (h.as_many, λ e. ap (λ b0. b0.chunks) (h.unfound refl), λ at e. (h.until at e, h.marked at e))
found_at-Reported (b', some at) h =
    (h.as_many, λ e. absurd (ground (arith, e)), λ at' e. (h.until at' e, h.marked at' e))

try-Reported :
    (b : Bitmap) (bits : ℕ)
    → IsValid b
    → Reported b bits (if ltb (free b) bits then (b, none) else found_at (search_all b bits))
try-Reported b bits v =
    if-intro (Reported b bits) (ltb (free b) bits)
      (λ _. (refl, λ e. refl, λ at e. absurd (ground (arith, e))))
      λ enough.
        found_at-Reported (search_all b bits)
          (search_all-Accounts b bits v (enough-fits b bits v enough))

-- A call for bits on a valid bitmap that reports a bit number reports a run that lies in the chunks: all
-- of its bits were free before and are set after the call, and every other bit is what it was. A call
-- that reports none leaves every bit as it was.
pub alloc_bits-reports : (b : Bitmap) (bits : ℕ) → IsValid b → Reported b bits (alloc_bits b bits)
unfolding alloc_bits
alloc_bits-reports b bits v =
    if-intro
      (λ b0. Reported b bits (
        if ltb (free b0) bits
        then (b0, none)
        else found_at (
            or_else (scan (length b.chunks - b0.free_p) b0 bits b0.free_p)
              λ b'. scan b0.free_p b' bits 0)))
      (b.free_p == length b.chunks)
      (λ _. try-Reported (record b { free_p = 0 }) bits (restart-IsValid v))
      λ _. try-Reported b bits v

-- Giving back a run that a call for at least one bit reported on a valid bitmap undoes that call, as
-- long as the bits of the chunks can be counted in a `size_t`: no assertion fails, and the bitmap is
-- valid and has the chunks, the count of used bits and the size that it had before the call for bits.
pub free_bits-alloc_bits :
    (b : Bitmap) (bits : ℕ) {b' : Bitmap} {at : ℕ}
    → IsValid b
    → 0 < bits
    → length b.chunks * 64 < u64
    → alloc_bits b bits ≡ (b', some at)
    → (b'' : Bitmap) × (free_bits b' at bits ≡ ok b'')
      × IsValid b''
      × (b''.chunks ≡ b.chunks)
      × (b''.used_bits ≡ b.used_bits)
      × (b''.size_bits ≡ b.size_bits)
free_bits-alloc_bits b bits {b' = b'} {at = at} v pos small e =
    let r = subst (Reported b bits) e (alloc_bits-reports b bits v) in
    let a = alloc_bits_lem b bits v in
    let v' = subst (λ x. IsValid x.0) e a.0 in
    let m = subst (λ x. taken (x.0).chunks ≡ taken b.chunks + amount bits x.1) e a.1 in
    let s = subst (λ x. (x.0).size_bits ≡ b.size_bits) e a.2 in
    let here = r.2 at refl in
    let f =
      free_bits_lem b' at bits v' pos (omega (arith, here.0, r.0)) (omega (arith, small, r.0))
        (here.1).now in
    let w = f.2 in
    let same = Marked-undone v.are_words w.are_words (f.6 ∙ r.0) here.1 f.5 in
    (f.0, f.1, f.2, same, omega (arith, m, f.3, w.used_taken, v.used_taken), f.4 ∙ s)
