-- ===== src/Queue/Steal/Inv.antt =====
-- What holds of the threads that share a queue of src/utils/queue.c, whatever they did.
use arax_g_rpc.Prelude.{
  ℕ, suc, ◌+◌, ◌%◌, ◌≤◌, ◌<◌, ◌≡◌, ◌≢◌, ◌∙◌, sym, List, true, false, length, get_or, arith,
}
use arax_g_rpc.Queue.{Queue, u16}
use arax_g_rpc.Queue.Steal.{
  Place, idle, read_top, read_bottom, read_entry, asked, locked, push_bottom, push_top, wrote,
  leaving, holds, Threads,
}

-- What a thread knows at its place, with `n` pointers popped and those in `ps` pushed.
unfoldable pub Knows : ℕ → Queue → ℕ → List ℕ → Place → Type 0
Knows cap q n ps idle = Unit {0}
Knows cap q n ps (read_top seen t) = (seen ≤ n) × (t ≡ seen % u16)
Knows cap q n ps (read_bottom seen t b) = (seen ≤ n) × (t ≡ seen % u16) × (b ≢ t → seen < length ps)
Knows cap q n ps (read_entry seen t x) =
    (seen ≤ n) × (t ≡ seen % u16) × (seen < length ps) × (n ≡ seen → x ≡ get_or ps seen 0)
Knows cap q n ps (asked x) = Unit {0}
Knows cap q n ps (locked x) = Unit {0}
Knows cap q n ps (push_bottom x b) = b ≡ q.bottom
Knows cap q n ps (push_top x b seen t) =
    (b ≡ q.bottom) × (seen ≤ n) × (t ≡ seen % u16) × (length ps ≤ seen + cap)
Knows cap q n ps (wrote x b) =
    (b ≡ q.bottom) × (length ps < n + cap) × (get_or q.entries (length ps % cap) 0 ≡ x)
Knows cap q n ps leaving = Unit {0}

-- The pointers pushed and not popped are in the queue, and those popped are the first pushed.
pub record Store (cap : ℕ) (q : Queue) (popped pushed : List ℕ) : Type 0 where
  pub top_is : q.top ≡ length popped % u16
  pub bottom_is : q.bottom ≡ length pushed % u16
  pub storage : length q.entries ≡ cap
  pub popped_le : length popped ≤ length pushed
  pub fits : length pushed ≤ length popped + cap
  pub kept :
      (k : ℕ)
      → length popped ≤ k
      → k < length pushed
      → get_or q.entries (k % cap) 0 ≡ get_or pushed k 0
  pub order : (k : ℕ) → k < length popped → get_or popped k 0 ≡ get_or pushed k 0

pub record Inv (cap : ℕ) (s : Threads) : Type 0 where
  pub store : Store cap s.queue s.popped s.pushed
  pub one : (i j : ℕ) → holds (s.place i) ≡ true → holds (s.place j) ≡ true → i ≡ j
  pub held : (i : ℕ) → holds (s.place i) ≡ true → s.lock ≡ 1
  pub knows : (i : ℕ) → Knows cap s.queue (length s.popped) s.pushed (s.place i)

-- A pop leaves what the threads know.
pub pop-Knows :
    (cap t n : ℕ) (q : Queue) (ps : List ℕ) (p : Place)
    → Knows cap q n ps p
    → Knows cap (record q { top = t }) (suc n) ps p
unfolding Knows
pop-Knows cap t' n q ps idle k = k
pop-Knows cap t' n q ps (read_top seen t) k = (omega (arith, k.0), k.1)
pop-Knows cap t' n q ps (read_bottom seen t b) k = (omega (arith, k.0), k.1, k.2)
pop-Knows cap t' n q ps (read_entry seen t x) k =
    (omega (arith, k.0), k.1, k.2, λ e. absurd (omega (arith, e, k.0)))
pop-Knows cap t' n q ps (asked x) k = k
pop-Knows cap t' n q ps (locked x) k = k
pop-Knows cap t' n q ps (push_bottom x b) k = k
pop-Knows cap t' n q ps (push_top x b seen t) k = (k.0, omega (arith, k.1), k.2, k.3)
pop-Knows cap t' n q ps (wrote x b) k = (k.0, omega (arith, k.1), k.2)
pop-Knows cap t' n q ps leaving k = k

-- And what another thread's push does leaves what a thread without the lock knows.
pub push-Knows :
    (cap n : ℕ) (q q' : Queue) (ps ps' : List ℕ) (p : Place)
    → holds p ≡ false
    → length ps ≤ length ps'
    → ((k : ℕ) → k < length ps → get_or ps' k 0 ≡ get_or ps k 0)
    → Knows cap q n ps p
    → Knows cap q' n ps' p
unfolding Knows holds
push-Knows cap n q q' ps ps' idle h l e k = k
push-Knows cap n q q' ps ps' (read_top seen t) h l e k = k
push-Knows cap n q q' ps ps' (read_bottom seen t b) h l e k =
    (k.0, k.1, λ d. omega (arith, k.2 d, l))
push-Knows cap n q q' ps ps' (read_entry seen t x) h l e k =
    (k.0, k.1, omega (arith, k.2, l), λ q. k.3 q ∙ sym (e seen k.2))
push-Knows cap n q q' ps ps' (asked x) h l e k = k
push-Knows cap n q q' ps ps' (locked x) h l e k = cc
push-Knows cap n q q' ps ps' (push_bottom x b) h l e k = cc
push-Knows cap n q q' ps ps' (push_top x b seen t) h l e k = cc
push-Knows cap n q q' ps ps' (wrote x b) h l e k = cc
push-Knows cap n q q' ps ps' leaving h l e k = cc
