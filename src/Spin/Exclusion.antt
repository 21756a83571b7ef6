-- ===== src/Spin/Exclusion.antt =====
-- The threads that share a condition of src/async/spin/async.c.
use arax_g_rpc.Prelude.{ℕ, ◌+◌, ◌-◌, ◌^◌, ◌<◌, ◌≤◌, ◌≡◌, refl, arith}
use arax_g_rpc.Prelude.Outcome.{ok}
use arax_g_rpc.Spin.{Condition, init, lock, unlock, wait_begin, wait_semaphore, wait_end, notify}

-- The condition, how many threads are between a lock and its unlock, wait for the semaphore, or wait
-- for the mutex behind it, and how many notifications were made and taken in all.
pub record Threads : Type 0 where
  pub cond : Condition
  pub inside : ℕ
  pub asleep : ℕ
  pub woken : ℕ
  pub notified : ℕ
  pub taken : ℕ

pub data Step : Threads → Threads → Type 0 where
  enter :
      (s : Threads) {c : Condition}
      → lock s.cond ≡ ok c
      → Step s (record s { cond = c; inside = s.inside + 1 })
  leave :
      (s : Threads)
      → 0 < s.inside
      → Step s (record s { cond = unlock s.cond; inside = s.inside - 1 })
  sleep :
      (s : Threads)
      → 0 < s.inside
      → Step s (record s { cond = wait_begin s.cond; inside = s.inside - 1; asleep = s.asleep + 1 })
  wake :
      (s : Threads) {c : Condition}
      → 0 < s.asleep
      → wait_semaphore s.cond ≡ ok c
      → Step s
          (record s { cond = c; asleep = s.asleep - 1; woken = s.woken + 1; taken = s.taken + 1 })
  resume :
      (s : Threads) {c : Condition}
      → 0 < s.woken
      → wait_end s.cond ≡ ok c
      → Step s (record s { cond = c; woken = s.woken - 1; inside = s.inside + 1 })
  tell :
      (s : Threads)
      → 0 < s.inside
      → Step s (record s { cond = notify s.cond; notified = s.notified + 1 })

pub data Reach (s : Threads) : Threads → Type 0 where
  here : Reach s s
  next : {t u : Threads} → Reach s t → Step t u → Reach s u

abbrev pub fresh : Threads
fresh = record { cond = init; inside = 0; asleep = 0; woken = 0; notified = 0; taken = 0 }

record Inv (s : Threads) : Type 0 where
  one : s.cond.mutex + s.inside ≡ 1
  counted : s.notified < 2 ^ 64 → s.cond.semaphore + s.taken ≡ s.notified

Step-Inv : {s t : Threads} → Step s t → Inv s → Inv t
unfolding lock unlock wait_begin wait_semaphore wait_end notify
Step-Inv (enter s e) i = record { one = ground (arith, i.one); counted = ground (arith, i.counted) }
Step-Inv (leave s h) i = record { one = ground (arith, i.one); counted = ground (arith, i.counted) }
Step-Inv (sleep s h) i = record { one = ground (arith, i.one); counted = ground (arith, i.counted) }
Step-Inv (wake s h e) i = record {
  one = ground (arith, i.one);
  counted = ground (arith, i.counted);
}
Step-Inv (resume s h e) i = record {
  one = ground (arith, i.one);
  counted = ground (arith, i.counted);
}
Step-Inv (tell s h) i = record { one = ground (arith, i.one); counted = ground (arith, i.counted) }

Reach-Inv : {s : Threads} → Reach fresh s → Inv s
unfolding init
Reach-Inv here = record { one = refl; counted = λ h. refl }
Reach-Inv (next r st) = Step-Inv st (Reach-Inv r)

-- However the calls of any number of threads interleave, where only a thread that holds a condition
-- unlocks it, waits on it or notifies it, at most one thread holds it, and its mutex is 1 exactly while
-- none does; and as long as fewer than 2 ^ 64 notifications were made, those not yet taken by a waiting
-- thread are all in the semaphore.
pub mutual_exclusion :
    {s : Threads}
    → Reach fresh s
    → (s.inside ≤ 1)
      × (s.cond.mutex + s.inside ≡ 1)
      × (s.notified < 2 ^ 64 → s.cond.semaphore + s.taken ≡ s.notified)
mutual_exclusion r = let i = Reach-Inv r in (omega (arith, i.one), i.one, i.counted)
