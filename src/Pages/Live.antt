-- ===== src/Pages/Live.antt =====
-- The mappings that calls of `arax_mmap` and `arax_ummap` of src/alloc/dlmalloc/alloc.c leave.
use arax_g_rpc.Prelude.{
  ℕ, ◌+◌, ◌-◌, ◌*◌, ◌/◌, ◌%◌, ◌≤◌, ◌<◌, ◌≡◌, ◌≢◌, ◌⊎◌, inl, inr, refl, ap, subst, sym, ◌∙◌, true,
  false, List, Bool, Option, none, some, ◌==◌, if◌then◌else◌, length, dec_lt, ℕ_discrete, arith,
}
use arax_g_rpc.Prelude.Outcome.{ok, ok-eq}
use arax_g_rpc.Bitmap.{Bitmap}
use arax_g_rpc.Bitmap.Words.{Word}
use arax_g_rpc.Bitmap.Valid.{IsValid}
use arax_g_rpc.Bitmap.Alloc.{alloc_bits_lem}
use arax_g_rpc.Bitmap.Marked.{Marked, bit}
use arax_g_rpc.Bitmap.Free.{free_bits_lem}
use arax_g_rpc.Pages.{Pages, page, mmap, ummap}
use arax_g_rpc.Pages.Undo.{HasRoom, mmap-Mapped, Mapped-first, ummap-free_bits}

-- The pages, and the address and the size of each mapping that is in use, by the name of its user.
pub record Mappings : Type 0 where
  pub pages : Pages
  pub live : ℕ → Option (ℕ × ℕ)

abbrev pub with : (ℕ → Option (ℕ × ℕ)) → ℕ → Option (ℕ × ℕ) → ℕ → Option (ℕ × ℕ)
with live h m k = if h == k then m else live k

-- A user maps some pages, or gives back all of a mapping.
pub data Step : Mappings → Mappings → Type 0 where
  map :
      (t : Mappings) (h s : ℕ) {p : Pages} {a : ℕ}
      → t.live h ≡ none
      → 0 < s
      → mmap t.pages s ≡ ok (p, a)
      → Step t (record { pages = p; live = with t.live h (some (a, s)) })
  unmap :
      (t : Mappings) (h : ℕ) {p : Pages} {a s : ℕ}
      → t.live h ≡ some (a, s)
      → ummap t.pages a s ≡ ok p
      → Step t (record { pages = p; live = with t.live h none })

pub data Reach (t : Mappings) : Mappings → Type 0 where
  here : Reach t t
  next : {u v : Mappings} → Reach t u → Step u v → Reach t v

-- A mapping is whole pages that are taken.
pub record Region (p : Pages) (a s : ℕ) : Type 0 where
  pub above : p.start ≤ a
  pub aligned : (a - p.start) % page ≡ 0
  pub whole : s % page ≡ 0
  pub some_page : 0 < s
  pub below : a + s ≤ p.start + length (p.bmp).chunks * 64 * page
  pub taken :
      (i : ℕ)
      → (a - p.start) / page ≤ i
      → i < (a - p.start) / page + s / page
      → bit (p.bmp).chunks i ≡ true

record Inv (t : Mappings) : Type 0 where
  valid : IsValid (t.pages.bmp)
  room : HasRoom t.pages
  region : (h a s : ℕ) → t.live h ≡ some (a, s) → Region t.pages a s
  apart :
      (h k a s c r : ℕ)
      → h ≢ k
      → t.live h ≡ some (a, s)
      → t.live k ≡ some (c, r)
      → (a + s ≤ c) ⊎ (c + r ≤ a)

-- A taken run and a free one have no bit in common.
runs_apart :
    (n m c r : ℕ) (f : ℕ → Bool)
    → 0 < m
    → 0 < r
    → ((i : ℕ) → n ≤ i → i < n + m → f i ≡ true)
    → ((i : ℕ) → c ≤ i → i < c + r → f i ≡ false)
    → (n + m ≤ c) ⊎ (c + r ≤ n)
runs_apart n m c r f pm pr full free = elim (dec_lt c (n + m)) [
  | no p ↦ inl (omega (arith, p))
  | yes p ↦ elim (dec_lt n (c + r)) [
    | no q ↦ inr (omega (arith, q))
    | yes q ↦ elim (dec_lt n c) [
      | yes x ↦ absurd (
          omega
            (arith, clash (full c (omega (arith, x)) p) (free c (omega arith) (omega (arith, pr)))))
      | no x ↦ absurd (
          omega
            (arith, clash (full n (omega arith) (omega (arith, pm))) (free n (omega (arith, x)) q)))
    ]
  ]
]
  where
    clash : {b : Bool} → b ≡ true → b ≡ false → 1 ≤ 0
    clash x y = cc

swap : {A B : Type 0} → A ⊎ B → B ⊎ A
swap (inl a) = inr a
swap (inr b) = inl b

new_apart :
    {a s c r : ℕ} (d u : ℕ) → a ≡ c → s ≡ r → (a + s ≤ d) ⊎ (d + u ≤ a) → (c + r ≤ d) ⊎ (d + u ≤ c)
new_apart d u e f (inl p) = inl (omega (arith, e, f, p))
new_apart d u e f (inr p) = inr (omega (arith, e, f, p))

-- Mappings of whole pages that have no page in common have no byte in common.
bytes_apart :
    (start c r a s : ℕ)
    → start ≤ c
    → start ≤ a
    → (c - start) % page ≡ 0
    → (a - start) % page ≡ 0
    → r % page ≡ 0
    → s % page ≡ 0
    → ((c - start) / page + r / page ≤ (a - start) / page)
      ⊎ ((a - start) / page + s / page ≤ (c - start) / page)
    → (c + r ≤ a) ⊎ (a + s ≤ c)
bytes_apart start c r a s lc la ac aa wr ws (inl p) = inl (omega (arith, lc, la, ac, aa, wr, ws, p))
bytes_apart start c r a s lc la ac aa wr ws (inr p) = inr (omega (arith, lc, la, ac, aa, wr, ws, p))

pages_apart :
    (start c r a s j : ℕ)
    → start ≤ c
    → start ≤ a
    → (c - start) % page ≡ 0
    → (a - start) % page ≡ 0
    → r % page ≡ 0
    → s % page ≡ 0
    → (c - start) / page ≤ j
    → j < (c - start) / page + r / page
    → (c + r ≤ a) ⊎ (a + s ≤ c)
    → (j < (a - start) / page) ⊎ ((a - start) / page + s / page ≤ j)
pages_apart start c r a s j lc la ac aa wr ws x y (inl p) =
    inl (omega (arith, lc, la, ac, aa, wr, ws, x, y, p))
pages_apart start c r a s j lc la ac aa wr ws x y (inr p) =
    inr (omega (arith, lc, la, ac, aa, wr, ws, x, y, p))

kept_true :
    {xs ys : List Word} {lo n : ℕ} (i : ℕ) → Marked xs lo n ys → bit xs i ≡ true → bit ys i ≡ true
kept_true {lo = lo} {n = n} i m e = elim (dec_lt i lo) [
  | yes p ↦ m.other i (inl p) ∙ e
  | no p ↦ elim (dec_lt i (lo + n)) [
    | yes q ↦ m.now i (omega (arith, p)) q
    | no q ↦ m.other i (inr (omega (arith, q))) ∙ e
  ]
]

pair_eq : {a s c r : ℕ} → ◌≡◌ {A = Option (ℕ × ℕ)} (some (a, s)) (some (c, r)) → (a ≡ c) × (s ≡ r)
pair_eq {a} {s} e =
    (ap (λ o. elim o [ none ↦ a | some x ↦ x.0 ]) e, ap (λ o. elim o [ none ↦ s | some x ↦ x.1 ]) e)

-- A name whose mapping is new, or one that had its mapping before.
with-some :
    (live : ℕ → Option (ℕ × ℕ)) (h k a s c r : ℕ)
    → with live h (some (a, s)) k ≡ some (c, r)
    → ((h ≡ k) × (a ≡ c) × (s ≡ r)) ⊎ ((h ≢ k) × (live k ≡ some (c, r)))
with-some live h k a s c r e = elim (ℕ_discrete h k) [
  | yes q ↦ let p = pair_eq (ground (arith, e, q)) in inl (q, p.0, p.1)
  | no q ↦ inr (q, ground (arith, e, q))
]

with-none :
    (live : ℕ → Option (ℕ × ℕ)) (h k c r : ℕ)
    → with live h none k ≡ some (c, r)
    → (h ≢ k) × (live k ≡ some (c, r))
with-none live h k c r e = elim (ℕ_discrete h k) [
  | yes q ↦ absurd (ground (arith, e, q))
  | no q ↦ (q, ground (arith, e, q))
]

-- What `arax_ummap` does on pages that are taken.
pub ummap-Region :
    (p : Pages) (a s : ℕ)
    → IsValid p.bmp
    → HasRoom p
    → Region p a s
    → (b : Bitmap) × (ummap p a s ≡ ok (record p { bmp = b }))
      × IsValid b
      × Marked b.chunks ((a - p.start) / page) (s / page) (p.bmp).chunks
      × (length b.chunks ≡ length (p.bmp).chunks)
ummap-Region p a s v room r =
    let al = r.aligned in
    let wh = r.whole in
    let f =
      free_bits_lem p.bmp ((a - p.start) / page) (s / page) v (omega (arith, wh, r.some_page))
        (omega (arith, r.above, r.below, al, wh)) (omega (arith, room)) r.taken in
    (
      f.0,
      ummap-free_bits p a s ((a - p.start) / page) (omega (arith, r.above, r.below, room)) f.1,
      f.2,
      f.5,
      f.6,
    )

map-Inv :
    (t : Mappings) (h s : ℕ) {p : Pages} {a : ℕ}
    → Inv t
    → 0 < s
    → mmap t.pages s ≡ ok (p, a)
    → Inv (record { pages = p; live = with t.live h (some (a, s)) })
map-Inv t h s {p = p} {a = a} i pos e =
    let old = t.pages in
    let m = mmap-Mapped old s {p' = p} {a = a} e in
    let w = m.whole in
    let f = Mapped-first i.room pos i.valid m in
    let same = (f.0).0 in
    let marked = ((f.0).2 ((a - old.start) / page) refl).1 in
    let grown : (c r : ℕ) → Region old c r → Region p c r = λ c r g. record {
      above = omega (arith, g.above, m.same_start);
      aligned = subst (λ k. (c - k) % page ≡ 0) (sym m.same_start) g.aligned;
      whole = g.whole;
      some_page = g.some_page;
      below = omega (arith, g.below, m.same_start, same);
      taken =
          subst
            (λ k.
              (j : ℕ)
              → (c - k) / page ≤ j
              → j < (c - k) / page + r / page
              → bit (p.bmp).chunks j ≡ true)
            (sym m.same_start) λ j x y. kept_true j marked (g.taken j x y);
    } in
    let new : Region p a s = record {
      above = omega (arith, f.2, m.same_start);
      aligned = subst (λ k. (a - k) % page ≡ 0) (sym m.same_start) f.1;
      whole = w;
      some_page = pos;
      below = omega (arith, f.3, m.same_start, same);
      taken =
          subst
            (λ k.
              (j : ℕ)
              → (a - k) / page ≤ j
              → j < (a - k) / page + s / page
              → bit (p.bmp).chunks j ≡ true)
            (sym m.same_start) marked.now;
    } in
    let beside : (c r : ℕ) → Region old c r → (c + r ≤ a) ⊎ (a + s ≤ c) = λ c r g.
      bytes_apart old.start c r a s g.above f.2 g.aligned f.1 g.whole w (
        runs_apart ((c - old.start) / page) (r / page) ((a - old.start) / page) (s / page)
          (bit (old.bmp).chunks) (omega (arith, g.whole, g.some_page)) (omega (arith, w, pos))
          g.taken marked.was) in
    record {
      valid = subst (λ x. IsValid x.0) m.found (alloc_bits_lem old.bmp (s / page) i.valid).0;
      room = omega (arith, i.room, m.same_start, same);
      region = λ k c r q. elim (with-some t.live h k a s c r q) [
        | inl x ↦ subst (λ d. Region p d r) x.1 (subst (λ d. Region p a d) x.2 new)
        | inr x ↦ grown c r (i.region k c r x.1)
      ];
      apart = λ k l c r d u n x y. elim (with-some t.live h k a s c r x) [
        | inl o ↦ elim (with-some t.live h l a s d u y) [
          | inl z ↦ absurd (n (sym o.0 ∙ z.0))
          | inr z ↦ new_apart d u o.1 o.2 (swap (beside d u (i.region l d u z.1)))
        ]
        | inr o ↦ elim (with-some t.live h l a s d u y) [
          | inl z ↦ swap (new_apart c r z.1 z.2 (swap (beside c r (i.region k c r o.1))))
          | inr z ↦ i.apart k l c r d u n o.1 z.1
        ]
      ];
    }

unmap-Inv :
    (t : Mappings) (h : ℕ) {p : Pages} {a s : ℕ}
    → Inv t
    → t.live h ≡ some (a, s)
    → ummap t.pages a s ≡ ok p
    → Inv (record { pages = p; live = with t.live h none })
unmap-Inv t h {p = p} {a = a} {s = s} i l e =
    let old = t.pages in
    let g = i.region h a s l in
    let u = ummap-Region old a s i.valid i.room g in
    let b = u.0 in
    let marked = u.3 in
    let shrunk : (k c r : ℕ)
        → h ≢ k
        → t.live k ≡ some (c, r)
        → Region (record old { bmp = b }) c r =
      λ k c r n q.
        let z = i.region k c r q in
        record {
          above = z.above;
          aligned = z.aligned;
          whole = z.whole;
          some_page = z.some_page;
          below = omega (arith, z.below, u.4);
          taken = λ j x y.
              sym (
                marked.other j (
                  pages_apart old.start c r a s j z.above g.above z.aligned g.aligned z.whole
                    g.whole x y (i.apart k h c r a s (λ o. n (sym o)) q l)))
              ∙ z.taken j x y;
        } in
    subst (λ x. Inv (record { pages = x; live = with t.live h none })) {x = record old { bmp = b }}
      (ok-eq (sym u.1 ∙ e))
      (record {
        valid = u.2;
        room = omega (arith, i.room, u.4);
        region = λ k c r q. let x = with-none t.live h k c r q in shrunk k c r x.0 x.1;
        apart = λ k m c r d v n x y.
            i.apart k m c r d v n (with-none t.live h k c r x).1 (with-none t.live h m d v y).1;
      })

Step-Inv : {t u : Mappings} → Step t u → Inv t → Inv u
Step-Inv (map t h s {p} {a} e pos m) i = map-Inv t h s {p = p} {a = a} i pos m
Step-Inv (unmap t h {p} {a} {s} l m) i = unmap-Inv t h {p = p} {a = a} {s = s} i l m

Reach-Inv : {t u : Mappings} → Inv t → Reach t u → Inv u
Reach-Inv i here = i
Reach-Inv i (next r s) = Step-Inv s (Reach-Inv i r)

abbrev pub unmapped : Pages → Mappings
unmapped p = record { pages = p; live = λ h. none }

-- However users map pages from a valid bitmap whose pages have addresses, and give back mappings: each
-- mapping in use begins and ends at a page and lies in the pages that the bitmap has bits for, no two
-- mappings in use share a byte, and giving one back fails no assertion.
pub mappings_apart :
    (p : Pages) {t : Mappings}
    → IsValid p.bmp
    → HasRoom p
    → Reach (unmapped p) t
    → ((h a s : ℕ)
        → t.live h ≡ some (a, s)
        → Region t.pages a s × ((q : Pages) × (ummap t.pages a s ≡ ok q)))
      × ((h k a s c r : ℕ)
          → h ≢ k
          → t.live h ≡ some (a, s)
          → t.live k ≡ some (c, r)
          → (a + s ≤ c) ⊎ (c + r ≤ a))
mappings_apart p v room r =
    let i =
      Reach-Inv
        (record { valid = v; room = room; region = λ h a s e. cc; apart = λ h k a s c d n e f. cc })
        r in
    (
      λ h a s e.
          let g = i.region h a s e in let u = ummap-Region _ a s i.valid i.room g in (g, (_, u.1)),
      i.apart,
    )
