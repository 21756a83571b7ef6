-- ===== src/Queue/Refine.antt =====
-- A valid `struct queue` behaves as the bounded first-in first-out queue of its entries.
use native.Mathlib.Nat.{mod-add-mod, mod-mod_of_dvd, mod-lt, mod-eq_of_lt, mod-eq-sub-mod}
use mathlib.Core.Path.{◌≡⟨◌⟩◌, ◌∎}
use arax_g_rpc.Prelude.{
  ℕ, zero, suc, ◌+◌, ◌-◌, ◌%◌, ◌<◌, ◌≡◌, refl, ap, ap₂, ◌∙◌, sym, ◌≢◌, List, [], ◌∷◌, ◌++◌, arith,
  length, get_or, set, get_or-set_self, get_or-set_ne, dec_lt,
}
use arax_g_rpc.Prelude.Outcome.{Outcome, ok, abort, fault, blocked, no_fuel, ◌>>=◌}
use arax_g_rpc.Queue.{Queue, u16, used_slots, pop, push, peek}
use arax_g_rpc.Queue.Inv.{IsCapacity, IsValid, capacity-lt, pop-IsValid, push-IsValid}
use arax_g_rpc.Queue.Spec
use arax_g_rpc.Queue.Spec.{Fifo, Call, put, get, look}

module _ (cap : ℕ) (es : List ℕ) where
  -- The `n` entries from the counter value `i` on.
  abbrev pub window : ℕ → ℕ → Fifo
  window i zero = []
  window i (suc n) = get_or es (i % cap) 0 ∷ window ((i + 1) % u16) n

  length-window : (i n : ℕ) → length (window i n) ≡ n
  length-window i zero = refl
  length-window i (suc n) = ap suc (length-window ((i + 1) % u16) n)

  window_of_ne_zero :
      (i n : ℕ) → n ≢ 0 → window i n ≡ get_or es (i % cap) 0 ∷ window ((i + 1) % u16) (n - 1)
  window_of_ne_zero i zero h = absurd (h refl)
  window_of_ne_zero i (suc n) h = ap (λ k. window i (suc k)) (omega arith)

abbrev pub contents : ℕ → Queue → Fifo
contents cap q = window cap q.entries q.top (used_slots q)

pub length-contents : (cap : ℕ) (q : Queue) → length (contents cap q) ≡ used_slots q
length-contents cap q = length-window cap q.entries q.top (used_slots q)

-- A shift by less than the capacity changes the slot.
pub slot-ne : (cap i k : ℕ) → 0 < k → k < cap → (i + k) % cap ≢ i % cap
slot-ne cap i k h l e = around (i % cap) (mod-lt i (omega arith)) (mod-add-mod i cap k ∙ e)
  where
    around : (r : ℕ) → r < cap → (r + k) % cap ≢ r
    around r hr = elim (dec_lt (r + k) cap) [
      | yes p ↦ omega (arith, mod-eq_of_lt p)
      | no p ↦ omega (
        arith,
        mod-eq-sub-mod {n = r + k} {m = cap} (omega arith),
        mod-eq_of_lt {n = r + k - cap} {m = cap} (omega arith),
      )
    ]

pub u16-mod : {cap : ℕ} → IsCapacity cap → (i : ℕ) → i % u16 % cap ≡ i % cap
u16-mod {cap} c i = mod-mod_of_dvd cap i ∣ (c.rounds, grind (arith, c.divides)) ∣₁

window-set :
    {cap : ℕ} (c : IsCapacity cap) (es : List ℕ) (x n i b : ℕ)
    → length es ≡ cap
    → n < cap
    → b % cap ≡ (i + n) % cap
    → window cap (set es (b % cap) x) i (suc n) ≡ window cap es i n ++ (x ∷ [])
window-set {cap} c es x zero i b hs hn e =
    let here : b % cap ≡ i % cap = e ∙ ap (λ k. k % cap) (omega arith) in
    rw here (ap (λ v. v ∷ []) (get_or-set_self es (i % cap) x 0 (rw hs (mod-lt i hn))))
window-set {cap} c es x (suc n) i b hs hn e =
    ap₂ ◌∷◌ (get_or-set_ne es x 0 (λ p. slot-ne cap i (suc n) (omega arith) hn (sym e ∙ p)))
      (window-set c es x n ((i + 1) % u16) b hs (omega arith) (e ∙ shift))
  where
    shift : (i + suc n) % cap ≡ ((i + 1) % u16 + n) % cap
    shift =
        (i + suc n) % cap
        ≡⟨ ap (λ k. k % cap) (omega arith) ⟩ (i + 1 + n) % cap
        ≡⟨ sym (mod-add-mod (i + 1) cap n) ⟩ ((i + 1) % cap + n) % cap
        ≡⟨ ap (λ k. (k + n) % cap) (sym (u16-mod c (i + 1))) ⟩ ((i + 1) % u16 % cap + n) % cap
        ≡⟨ mod-add-mod ((i + 1) % u16) cap n ⟩ ((i + 1) % u16 + n) % cap ∎

-- Where the next push writes, as seen from the oldest entry.
bottom-slot :
    {cap : ℕ} {q : Queue} (c : IsCapacity cap)
    → IsValid cap q
    → q.bottom % cap ≡ (q.top + used_slots q) % cap
unfolding used_slots
bottom-slot {cap} {q} c v = ap (λ k. k % cap) round ∙ u16-mod c (q.top + used_slots q)
  where
    round : q.bottom ≡ (q.top + used_slots q) % u16
    round = ground arith

module _ {cap : ℕ} {q : Queue} (c : IsCapacity cap) (v : IsValid cap q) where
  -- `utils_queue_used_slots` is the number of pointers that the queue holds.
  pub used_slots-contents : used_slots q ≡ length (contents cap q)
  used_slots-contents = sym (length-contents cap q)

  pub pop_refines : let (r, q') = pop cap q in (r, contents cap q') ≡ Spec.pop (contents cap q)
  unfolding pop used_slots Spec.pop
  pop_refines = ground (arith, window_of_ne_zero cap q.entries q.top (used_slots q))

  pub peek_refines : peek cap q ≡ Spec.peek (contents cap q)
  unfolding peek used_slots Spec.peek
  peek_refines = ground (arith, window_of_ne_zero cap q.entries q.top (used_slots q))

  pub push_refines :
      (x : ℕ)
      → (do (r, q') ← push cap q x; ok (r, contents cap q')) ≡ Spec.push cap (contents cap q) x
  unfolding push used_slots Spec.push
  push_refines x = ground (
    arith,
    length-contents cap q,
    capacity-lt c,
    window-set c q.entries x (used_slots q) q.top q.bottom v.storage,
    bottom-slot c v,
  )

-- The pointers that a sequence of calls on a `struct queue` returns.
unfoldable pub run_queue : ℕ → Queue → List Call → Outcome (List ℕ)
run_queue cap q [] = ok []
run_queue cap q (put x ∷ cs) = do (r, q') ← push cap q x; rs ← run_queue cap q' cs; ok (r ∷ rs)
run_queue cap q (get ∷ cs) = let (r, q') = pop cap q in do rs ← run_queue cap q' cs; ok (r ∷ rs)
run_queue cap q (look ∷ cs) = do rs ← run_queue cap q cs; ok (peek cap q ∷ rs)

push-bind :
    {cap : ℕ} (c : IsCapacity cap) (x : ℕ) (cs : List Call) (q : Queue)
    → IsValid cap q
    → ((q' : Queue) → IsValid cap q' → run_queue cap q' cs ≡ Spec.run cap (contents cap q') cs)
    → (m : Outcome (ℕ × Queue)) → push cap q x ≡ m
    → (do (r, q') ← m; rs ← run_queue cap q' cs; ok (r ∷ rs))
      ≡ (do (r, f) ← (do (r, q') ← m; ok (r, contents cap q')); rs ← Spec.run cap f cs; ok (r ∷ rs))
push-bind c x cs q v rest (ok (r, q')) e = rw (rest q' (push-IsValid c v x e))
push-bind c x cs q v rest abort e = refl
push-bind c x cs q v rest fault e = refl
push-bind c x cs q v rest blocked e = refl
push-bind c x cs q v rest no_fuel e = refl

-- Whatever sequence of calls is made on a valid queue whose capacity is a power of two up to 32768,
-- the pointers returned, or the failed assertion on a NULL pushed, are those of the bounded
-- first-in first-out queue that starts with the queue's entries.
pub run_refines :
    {cap : ℕ} (c : IsCapacity cap) (cs : List Call) (q : Queue)
    → IsValid cap q
    → run_queue cap q cs ≡ Spec.run cap (contents cap q) cs
unfolding run_queue Spec.run
run_refines c [] q v = refl
run_refines {cap} c (put x ∷ cs) q v =
    push-bind c x cs q v (run_refines c cs) (push cap q x) refl ∙ rw (push_refines c v x)
run_refines {cap} c (get ∷ cs) q v =
    rw (run_refines c cs (pop cap q).1 (pop-IsValid c v), ← pop_refines c v)
run_refines {cap} c (look ∷ cs) q v = rw (run_refines c cs q v, peek_refines c v)
