-- ===== src/Pages/Undo.antt =====
-- What `arax_mmap` and `arax_ummap` of src/alloc/dlmalloc/alloc.c do to the bitmap.
use arax_g_rpc.Prelude.{
  ℕ, ◌+◌, ◌-◌, ◌*◌, ◌/◌, ◌%◌, ◌≤◌, ◌<◌, ◌≡◌, refl, ap, Bool, subst, sym, ◌∙◌, true, false, Option,
  none, some, ◌==◌, length, arith,
}
use arax_g_rpc.Prelude.Outcome.{ok, ok-eq, ◌>>=◌, ◌>>◌, arax_assert}
use arax_g_rpc.Bitmap.{Bitmap, u64, alloc_bits, free_bits}
use arax_g_rpc.Bitmap.Valid.{IsValid}
use arax_g_rpc.Bitmap.Reported.{Reported, alloc_bits-reports}
use arax_g_rpc.Bitmap.Reported.{free_bits-alloc_bits}
use arax_g_rpc.Pages.{Pages, page, mapped_at, mmap, ummap}

-- The pages of an allocator have addresses.
abbrev pub HasRoom : Pages → Type 0
HasRoom p = p.start + length (p.bmp).chunks * 64 * page < u64

-- What a call of `arax_mmap` that returns found.
pub record Mapped (p : Pages) (s : ℕ) (p' : Pages) (a : ℕ) : Type 0 where
  pub at : ℕ
  pub whole : s % page ≡ 0
  pub found : alloc_bits p.bmp (s / page) ≡ (p'.bmp, some at)
  pub same_start : p'.start ≡ p.start
  pub address : a ≡ (p.start + at * page % u64) % u64

mapped_at-Mapped :
    (p : Pages) (s : ℕ) (r : Bitmap × Option ℕ) {p' : Pages} {a : ℕ}
    → s % page ≡ 0
    → alloc_bits p.bmp (s / page) ≡ r
    → mapped_at p r ≡ ok (p', a)
    → Mapped p s p' a
unfolding mapped_at
mapped_at-Mapped p s (b, none) w f e = cc
mapped_at-Mapped p s (b, some at) {p' = p'} {a = a} w f e =
    let q = ok-eq e in
    record {
      at = at;
      whole = w;
      found = f ∙ ap (λ x. ((x.0).bmp, some at)) q;
      same_start = sym (ap (λ x. (x.0).start) q);
      address = sym (ap (λ x. x.1) q);
    }

asserted-Mapped :
    (p : Pages) (s : ℕ) (t : Bool) {p' : Pages} {a : ℕ}
    → (s % page == 0) ≡ t
    → (do arax_assert t; mapped_at p (alloc_bits p.bmp (s / page))) ≡ ok (p', a)
    → Mapped p s p' a
asserted-Mapped p s false q e = cc
asserted-Mapped p s true q e =
    mapped_at-Mapped p s (alloc_bits p.bmp (s / page)) (ground (arith, q)) refl e

pub mmap-Mapped : (p : Pages) (s : ℕ) {p' : Pages} {a : ℕ} → mmap p s ≡ ok (p', a) → Mapped p s p' a
unfolding mmap
mmap-Mapped p s e = asserted-Mapped p s (s % page == 0) refl e

-- The pages at `a` in a bitmap, as `arax_ummap` finds them, are the bits that were found.
pub Mapped-first :
    {p p' : Pages} {s a : ℕ}
    → HasRoom p
    → 0 < s
    → IsValid p.bmp
    → Mapped p s p' a
    → (m : Reported p.bmp (s / page) (p'.bmp, some ((a - p.start) / page))) × ((a - p.start) % page
        ≡ 0)
      × (p.start ≤ a)
      × (a + s ≤ p.start + length (p.bmp).chunks * 64 * page)
Mapped-first {p} {p'} {s} {a} room pos v m =
    let r = subst (Reported p.bmp (s / page)) m.found (alloc_bits-reports p.bmp (s / page) v) in
    let end = (r.2 m.at refl).0 in
    let w = m.whole in
    let a_is : a ≡ p.start + m.at * page = omega (arith, m.address, end, room, w, pos) in
    (
      subst (λ k. Reported p.bmp (s / page) (p'.bmp, some k)) {x = m.at} (omega (arith, a_is)) r,
      omega (arith, a_is),
      omega (arith, a_is),
      omega (arith, a_is, end, w),
    )

-- `arax_ummap` gives back the bits at the page that it is told.
pub ummap-free_bits :
    (p : Pages) {b : Bitmap} (a s at : ℕ)
    → (a + u64 - p.start) % u64 / page ≡ at
    → free_bits p.bmp at (s / page) ≡ ok b
    → ummap p a s ≡ ok (record p { bmp = b })
unfolding ummap
ummap-free_bits p a s at e f =
    ap (λ k. do b ← free_bits p.bmp k (s / page); ok (record p { bmp = b })) e
    ∙ ap (λ o. do b ← o; ok (record p { bmp = b })) f

-- Giving back the pages that a call of `arax_mmap` for at least one page returned undoes that call: the
-- chunks of the bitmap, its count of used bits and its size are those before it, as long as the pages
-- have addresses.
pub ummap-mmap :
    (p : Pages) (s : ℕ) {p' : Pages} {a : ℕ}
    → IsValid p.bmp
    → HasRoom p
    → 0 < s
    → mmap p s ≡ ok (p', a)
    → (p'' : Pages) × (ummap p' a s ≡ ok p'')
      × (p''.start ≡ p.start)
      × ((p''.bmp).chunks ≡ (p.bmp).chunks)
      × ((p''.bmp).used_bits ≡ (p.bmp).used_bits)
      × ((p''.bmp).size_bits ≡ (p.bmp).size_bits)
ummap-mmap p s {p' = p'} {a = a} v room pos e =
    let m = mmap-Mapped p s {p' = p'} {a = a} e in
    let w = m.whole in
    let f = Mapped-first room pos v m in
    let r = subst (Reported p.bmp (s / page)) m.found (alloc_bits-reports p.bmp (s / page) v) in
    let end = (r.2 m.at refl).0 in
    let back : (a + u64 - p'.start) % u64 / page ≡ m.at =
      omega (arith, m.address, m.same_start, end, room, w, pos) in
    let u =
      free_bits-alloc_bits p.bmp (s / page) v (omega (arith, w, pos)) (omega (arith, room))
        m.found in
    (record p' { bmp = u.0 }, ummap-free_bits p' a s m.at back u.1, m.same_start, u.3, u.4, u.5)
