-- ===== src/Bitmap/Accounts.antt =====
-- What `find_start` does to the number of bits taken (src/utils/bitmap.c).
use arax_g_rpc.Prelude.{
  ℕ, ◌+◌, ◌*◌, ◌≡◌, ◌<◌, ◌≤◌, subst, refl, ap, ◌∙◌, Bool, true, false, Option, none, some, length,
  if◌then◌else◌, arith,
}
use arax_g_rpc.Bitmap.{Bitmap, u64, take_bits}
use arax_g_rpc.Bitmap.Taken.{taken, AreWords}
use arax_g_rpc.Bitmap.Marked.{Marked}
use arax_g_rpc.Bitmap.Wrote.{Wrote}

-- How many bits a search took.
abbrev pub amount : ℕ → Option ℕ → ℕ
amount bits none = 0
amount bits (some s) = bits

-- A search of `b` for `bits` bits: those found lie in the chunks, they were free, and they and no others
-- are set and counted; where none are found nothing changed.
pub record Accounts (b : Bitmap) (bits : ℕ) (r : Bitmap × Option ℕ) : Type 0 where
  pub more : taken (r.0).chunks ≡ taken b.chunks + amount bits r.1
  pub used_more : (r.0).used_bits ≡ b.used_bits + amount bits r.1
  pub as_many : length (r.0).chunks ≡ length b.chunks
  pub same_size : (r.0).size_bits ≡ b.size_bits
  pub same_free : (r.0).free_p ≡ b.free_p
  pub are_words : AreWords (r.0).chunks
  pub until : (at : ℕ) → r.1 ≡ some at → at + bits ≤ length b.chunks * 64
  pub marked : (at : ℕ) → r.1 ≡ some at → Marked b.chunks at bits (r.0).chunks
  pub unfound : r.1 ≡ none → r.0 ≡ b

pub Accounts-none : (b : Bitmap) (bits : ℕ) → AreWords b.chunks → Accounts b bits (b, none)
Accounts-none b bits s = record {
  more = omega arith;
  used_more = omega arith;
  as_many = refl;
  same_size = refl;
  same_free = refl;
  are_words = s;
  until = λ at e. absurd (ground (arith, e));
  marked = λ at e. absurd (ground (arith, e));
  unfound = λ e. refl;
}

pub Accounts-some :
    {b b' : Bitmap} {n at : ℕ} (bits : ℕ)
    → Wrote b at n b'
    → n ≡ bits
    → b.used_bits + bits < u64
    → at + bits ≤ length b.chunks * 64
    → Accounts b bits (take_bits b' bits, some at)
Accounts-some {b = b} {b' = b'} {at = at} bits w e small end = record {
  more = w.more ∙ ap (λ k. taken b.chunks + k) e;
  used_more = ground (arith, w.same_used);
  as_many = w.as_many;
  same_size = w.same_size;
  same_free = w.same_free;
  are_words = w.are_words;
  until = λ at' q. ground (arith, q, end);
  marked = λ at' q.
      subst (λ k. Marked b.chunks k bits b'.chunks) {x = at} (ground (arith, q))
        (subst (λ k. Marked b.chunks at k b'.chunks) e w.marked);
  unfound = λ q. absurd (ground (arith, q));
}

pub if-Accounts :
    {b : Bitmap} {bits : ℕ} (t : Bool) {x y : Bitmap × Option ℕ}
    → (t ≡ true → Accounts b bits x)
    → (t ≡ false → Accounts b bits y)
    → Accounts b bits (if t then x else y)
if-Accounts true f g = f refl
if-Accounts false f g = g refl

pub found-Accounts {ℓ} :
    {A : Type ℓ} {b : Bitmap} {bits : ℕ} (o : Option A) {x : Bitmap × Option ℕ}
    {f : A → Bitmap × Option ℕ}
    → (o ≡ none → Accounts b bits x)
    → ((a : A) → o ≡ some a → Accounts b bits (f a))
    → Accounts b bits (elim o [ none ↦ x | some a ↦ f a ])
found-Accounts none p q = p refl
found-Accounts (some a) p q = q a refl
