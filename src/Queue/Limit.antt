-- ===== src/Queue/Limit.antt =====
-- The largest capacity that the build options allow, 65536, is one too many for `uint16_t` counters.
use arax_g_rpc.Prelude.{ℕ, ◌+◌, ◌%◌, ◌<◌, ◌≡◌, ◌≢◌, arith, set}
use arax_g_rpc.Prelude.Outcome.{ok}
use arax_g_rpc.Queue.{Queue, u16, used_slots, push}

-- At a capacity of 65536, for counters within `uint16_t`, every push of a pointer other than NULL is
-- taken and the number of used slots becomes one more modulo 65536: also where the queue holds 65535
-- pointers already, and then it reads as empty.
pub push-u16 :
    (q : Queue) (x : ℕ)
    → q.bottom < u16
    → q.top < u16
    → x ≢ 0
    → (q' : Queue) × (push u16 q x ≡ ok (x, q')) × (used_slots q' ≡ (used_slots q + 1) % u16)
unfolding push used_slots
push-u16 q x hb ht hx = (
  record q { entries = set q.entries (q.bottom % u16) x; bottom = (q.bottom + 1) % u16 },
  ground arith,
  ground arith,
)
