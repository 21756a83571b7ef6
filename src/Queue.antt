-- ===== src/Queue.antt =====
-- src/utils/queue.c and queue.h: the circular task queue of a virtual accelerator.
-- `cap` is UTILS_QUEUE_CAPACITY (256 unless configured), `x & (cap - 1)` of a power of two is
-- `x % cap`, and `bottom` and `top` are `uint16_t`. A pointer is a number and NULL is 0.
-- The lock of `utils_queue_push` is the one of src/utils/spinlock.h; here a call runs alone.
pub mod Tests
pub mod Spec
pub mod Inv
pub mod Refine
pub mod Limit
pub mod Steal
use Prim.Native.Nat.{bit_and}
use arax_g_rpc.Prelude.{
  ℕ, ◌+◌, ◌-◌, ◌%◌, ◌^◌, Bool, true, false, not, List, [], ◌∷◌, Option, none, some, ltb, ◌==◌,
  if◌then◌else◌, get_or, set, replicate,
}
use arax_g_rpc.Prelude.Outcome.{Outcome, ok, ◌>>=◌, ◌>>◌, arax_assert}

-- `struct queue`
pub record Queue : Type 0 where
  pub entries : List ℕ
  pub bottom : ℕ
  pub top : ℕ

-- the values of a `uint16_t`
abbrev pub u16 : ℕ
u16 = 65536

unfoldable pub init : ℕ → Outcome Queue
init cap = do
  arax_assert (bit_and cap (cap - 1) == 0)
  ok (record { entries = replicate cap 0; bottom = 0; top = 0 })

-- `b - t` as an `int`, with UINT16_MAX + 1 added if it is negative
pub slots : ℕ → ℕ → ℕ
slots b t = if ltb b t then b + u16 - t else b - t

unfoldable pub used_slots : Queue → ℕ
unfolding slots
used_slots q = slots q.bottom q.top

-- The value that a pop reads before its compare-and-swap: `top`, and the entry there if there is one.
read_top : ℕ → Queue → Option (ℕ × ℕ)
read_top cap q = if q.bottom == q.top then none else some (q.top, get_or q.entries (q.top % cap) 0)

-- `__sync_bool_compare_and_swap(&q->top, t, t + 1)`, and what the pop then returns
take_top : Option (ℕ × ℕ) → Queue → ℕ × Queue
take_top none q = (0, q)
take_top (some (t, x)) q = if q.top == t then (x, record q { top = (t + 1) % u16 }) else (0, q)

unfoldable pub pop : ℕ → Queue → ℕ × Queue
unfolding read_top take_top
pop cap q = take_top (read_top cap q) q

-- `data` or NULL, beside the queue left
unfoldable pub push : ℕ → Queue → ℕ → Outcome (ℕ × Queue)
unfolding slots
push cap q x = do
  arax_assert (not (x == 0))
  if slots q.bottom q.top == cap
      then ok (0, q)
      else ok (
        x,
        record q { entries = set q.entries (q.bottom % cap) x; bottom = (q.bottom + 1) % u16 },
      )

unfoldable pub peek : ℕ → Queue → ℕ
peek cap q = if q.bottom == q.top then 0 else get_or q.entries (q.top % cap) 0
