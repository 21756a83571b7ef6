-- ===== src/Queue/Steal/Once.antt =====
-- What the threads that share a queue of src/utils/queue.c take from it.
use arax_g_rpc.Prelude.{
  ℕ, zero, suc, ◌+◌, ◌-◌, ◌%◌, ◌≤◌, ◌<◌, ◌≡◌, ◌≢◌, dec_lt, refl, ap, ap₂, subst, ◌∙◌, sym, List,
  ◌∷◌, ◌++◌, length, length-replicate, get_or, drop, drop_of_lt, drop_of_le, append-drop, arith,
}
use arax_g_rpc.Prelude.Outcome.{ok}
use arax_g_rpc.Spinlock
use arax_g_rpc.Queue.{Queue, u16, slots, used_slots}
use arax_g_rpc.Queue.Inv.{IsCapacity, capacity-lt}
use arax_g_rpc.Queue.Refine.{contents, length-contents, window, u16-mod}
use arax_g_rpc.Queue.Steal.{
  Place, idle, read_bottom, read_entry, asked, leaving, holds, Threads, fresh, Step, pop, look,
  empty, take, win, lose, push, enter, see_bottom, see_top, full, write, publish, leave, Reach,
  here, next,
}
use arax_g_rpc.Queue.Steal.Inv.{Knows, Store, Inv}
use arax_g_rpc.Queue.Steal.Moves.{at-Inv, enter-Inv, leave-Inv, win-Inv, write-Inv, publish-Inv}

-- What a thread knows where it is.
known :
    {cap : ℕ} {s : Threads} (v : Inv cap s) (i : ℕ) {p : Place}
    → s.place i ≡ p
    → Knows cap s.queue (length s.popped) s.pushed p
known {cap} {s} v i e = subst (Knows cap s.queue (length s.popped) s.pushed) e (v.knows i)

read_entry-Knows :
    {cap : ℕ} {s : Threads} (c : IsCapacity cap) (v : Inv cap s) (seen t b : ℕ)
    → b ≢ t
    → Knows cap s.queue (length s.popped) s.pushed (read_bottom seen t b)
    → Knows cap s.queue
        (length s.popped)
        s.pushed
        (read_entry seen t (get_or s.queue.entries (t % cap) 0))
unfolding Knows
read_entry-Knows {cap} {s} c v seen t b d k = (
  k.0,
  k.1,
  k.2 d,
  λ e.
      ap (λ m. get_or s.queue.entries m 0) (ap (λ m. m % cap) k.1 ∙ u16-mod c seen)
      ∙ (v.store).kept seen (omega (arith, e)) (k.2 d),
)

-- A `bottom` that is not the `top` read before it is a later one.
seen_below :
    (seen m : ℕ) {b t n : ℕ} → b ≢ t → seen ≤ n → t ≡ seen % u16 → b ≡ m % u16 → n ≤ m → seen < m
seen_below seen m d l e f g = elim (dec_lt seen m) [
  | yes p ↦ p
  | no p ↦ absurd (d (f ∙ ap (λ k. k % u16) (omega (arith, p, l, g)) ∙ sym e))
]

pub Step-Inv : {cap : ℕ} {s t : Threads} → IsCapacity cap → Step cap s t → Inv cap s → Inv cap t
unfolding Knows holds
Step-Inv c (pop s i e) v = at-Inv v i _ (λ q. cc) (omega arith, (v.store).top_is)
Step-Inv c (look s i {seen} {t} e) v =
    let k = known v i e in
    let st = v.store in
    at-Inv v i _ (λ q. cc) (k.0, k.1, λ d. seen_below seen _ d k.0 k.1 st.bottom_is st.popped_le)
Step-Inv c (empty s i e same) v = at-Inv v i idle (λ q. cc) tt
Step-Inv c (take s i {seen} {t} {b} e d) v =
    at-Inv v i _ (λ q. cc) (read_entry-Knows c v seen t b d (known v i e))
Step-Inv c (win s i e top near) v = win-Inv v i e top near
Step-Inv c (lose s i e d) v = at-Inv v i idle (λ q. cc) tt
Step-Inv c (push s i x e d) v = at-Inv v i (asked x) (λ q. cc) tt
Step-Inv c (enter s i {x} e l) v = enter-Inv v i x l
Step-Inv c (see_bottom s i e) v = at-Inv v i _ (λ q. ap holds e) refl
Step-Inv c (see_top s i e) v =
    at-Inv v i _ (λ q. ap holds e)
      (known v i e, omega arith, (v.store).top_is, omega (arith, (v.store).fits))
Step-Inv c (full s i e f) v = at-Inv v i leaving (λ q. ap holds e) tt
Step-Inv c (write s i e room) v = write-Inv v i c e room
Step-Inv c (publish s i e) v = publish-Inv v i e
Step-Inv c (leave s i e l) v = leave-Inv v i (ap holds e)

fresh-Inv : (cap : ℕ) → Inv cap (fresh cap)
unfolding Knows holds
fresh-Inv cap = record {
  store = record {
    top_is = refl;
    bottom_is = refl;
    storage = length-replicate cap 0;
    popped_le = omega arith;
    fits = omega arith;
    kept = λ k a b. absurd (omega arith);
    order = λ k a. absurd (omega arith);
  };
  one = λ i j a b. cc;
  held = λ i a. cc;
  knows = λ i. tt;
}

Reach-Inv : {cap : ℕ} {s : Threads} → IsCapacity cap → Reach cap (fresh cap) s → Inv cap s
Reach-Inv {cap} c here = fresh-Inv cap
Reach-Inv c (next r t) = Step-Inv c t (Reach-Inv c r)

window-drop :
    {cap : ℕ} (c : IsCapacity cap) (es ps : List ℕ) (k m : ℕ)
    → length ps ≡ k + m
    → ((j : ℕ) → k ≤ j → j < length ps → get_or es (j % cap) 0 ≡ get_or ps j 0)
    → (i : ℕ) → i ≡ k % u16
    → window cap es i m ≡ drop k ps
window-drop c es ps k zero l h i e = sym (drop_of_le ps k (omega (arith, l)))
window-drop {cap} c es ps k (suc m) l h i e =
    ap₂ ◌∷◌
      (ap (λ j. get_or es j 0) (ap (λ j. j % cap) e ∙ u16-mod c k)
        ∙ h k (omega arith) (omega (arith, l)))
      (window-drop c es ps (suc k) m (omega (arith, l)) (λ j a b. h j (omega arith) b)
        ((i + 1) % u16) (omega (arith, e)))
    ∙ sym (drop_of_lt ps k 0 (omega (arith, l)))

Store-contents :
    {cap : ℕ} {q : Queue} {popped pushed : List ℕ} (c : IsCapacity cap)
    → Store cap q popped pushed
    → (used_slots q ≡ length pushed - length popped) × (popped ++ contents cap q ≡ pushed)
unfolding used_slots slots
Store-contents {cap} {q} {popped} {pushed} c st =
    let used : used_slots q ≡ length pushed - length popped =
      ground (arith, st.top_is, st.bottom_is, st.popped_le, st.fits, capacity-lt c) in
    (
      used,
      ap (λ xs. popped ++ xs)
            (ap (window cap q.entries q.top) used
              ∙ window-drop c q.entries pushed (length popped) (length pushed - length popped)
                  (omega (arith, st.popped_le)) st.kept q.top st.top_is)
          ∙ append-drop popped pushed 0 st.popped_le st.order,
    )

-- However the accesses of any number of threads that push to a queue and pop from it interleave, if
-- its capacity is a power of two up to 32768 and no thread is overtaken by 65536 pops between its read
-- of `top` and its compare-and-swap: the pointers popped, in the order in which they were, and then
-- those in the queue are exactly the pointers pushed, so that none is lost, delivered twice or
-- overtaken; the queue never holds more than its capacity; and the assertion in the unlock after a push
-- does not fail.
pub delivered_once :
    {cap : ℕ} {s : Threads} (c : IsCapacity cap)
    → Reach cap (fresh cap) s
    → (s.popped ++ contents cap s.queue ≡ s.pushed)
      × (length (contents cap s.queue) ≤ cap)
      × ((i : ℕ) → s.place i ≡ leaving → Spinlock.unlock s.lock ≡ ok 0)
unfolding holds Spinlock.unlock
delivered_once {cap} {s} c r =
    let v = Reach-Inv c r in
    let k = Store-contents c v.store in
    (
      k.1,
      omega (arith, length-contents cap s.queue, k.0, (v.store).fits),
      λ i e. ground (arith, v.held i (ap holds e)),
    )
