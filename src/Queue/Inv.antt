-- ===== src/Queue/Inv.antt =====
-- The invariant of a `struct queue`: its size, the range of its counters, and how full it is.
use arax_g_rpc.Prelude.{ℕ, ◌*◌, ◌%◌, ◌≤◌, ◌<◌, ◌≡◌, arith, length, length-set, length-replicate}
use arax_g_rpc.Prelude.Outcome.{ok}
use arax_g_rpc.Queue.{Queue, u16, init, used_slots, pop, push}

-- A capacity that divides 65536 and is less: a power of two up to 32768.
pub record IsCapacity (cap : ℕ) : Type 0 where
  pub rounds : ℕ
  pub divides : rounds * cap ≡ u16
  pub more : 1 < rounds

pub record IsValid (cap : ℕ) (q : Queue) : Type 0 where
  pub storage : length q.entries ≡ cap
  pub bottom_in : q.bottom < u16
  pub top_in : q.top < u16
  pub fits : used_slots q ≤ cap

module _ {cap : ℕ} (c : IsCapacity cap) where
  pub capacity_pos : 0 < cap
  capacity_pos = grind (arith, c.divides, c.more)

  pub capacity-lt : 2 * cap ≤ u16
  capacity-lt = grind (arith, c.divides, c.more)

-- `utils_queue_init` accepts a power of two, and leaves a valid empty queue.
pub init-IsValid :
    {cap : ℕ} (c : IsCapacity cap) (q : Queue)
    → init cap ≡ ok q
    → IsValid cap q × (used_slots q ≡ 0)
unfolding init used_slots
init-IsValid {cap} c q e = ground (arith, length-replicate {A = ℕ} cap 0)

module _ {cap : ℕ} {q : Queue} (c : IsCapacity cap) (v : IsValid cap q) where
  pub pop-IsValid : IsValid cap (pop cap q).1
  unfolding pop used_slots
  pop-IsValid = ground arith

  pub push-IsValid : (x : ℕ) {r : ℕ} {q' : Queue} → push cap q x ≡ ok (r, q') → IsValid cap q'
  unfolding push used_slots
  push-IsValid x e = ground (arith, length-set q.entries (q.bottom % cap) x, capacity-lt c)
