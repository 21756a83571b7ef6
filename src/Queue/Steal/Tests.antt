-- ===== src/Queue/Steal/Tests.antt =====
-- Threads that share a queue of src/utils/queue.c in one concrete order.
use arax_g_rpc.Prelude.{
  ◌++◌, ◌==◌, ltb, false, true, ◌<◌, ◌≤◌, ◌≡◌, ◌≢◌, refl, ℕ, [], ◌∷◌, length, arith,
}
use arax_g_rpc.Prelude.Outcome.{ok}
use arax_g_rpc.Spinlock
use arax_g_rpc.Queue.{slots}
use arax_g_rpc.Queue.Refine.{contents}
use arax_g_rpc.Queue.Steal.{
  leaving, Threads, fresh, pop, look, take, win, lose, push, enter, see_bottom, see_top, write,
  publish, leave, Reach, here, next,
}
use arax_g_rpc.Queue.Steal.Once.{delivered_once}

ne : (a b : ℕ) → (a == b) ≡ false → a ≢ b
ne a b e = ground (arith, e)

below : (a b : ℕ) → ltb a b ≡ true → a < b
below a b e = ground (arith, e)

-- Thread 0 pushes 7, and threads 1 and 2 go for it at the same time.
two_thieves : (s : Threads) × Reach 4 (fresh 4) s
unfolding Spinlock.try_lock Spinlock.unlock Spinlock.init slots
two_thieves = (
  _,
  next
      (next
        (next
          (next
            (next
              (next
                (next
                  (next
                    (next
                      (next
                        (next
                          (next
                            (next
                              (next (next here (push _ 0 7 refl (ne _ _ refl)))
                                (enter _ 0 {l = 1} refl refl))
                              (see_bottom _ 0 refl))
                            (see_top _ 0 refl))
                          (write _ 0 refl (ne _ _ refl)))
                        (publish _ 0 refl))
                      (leave _ 0 {l = 0} refl refl))
                    (pop _ 1 refl))
                  (pop _ 2 refl))
                (look _ 1 refl))
              (look _ 2 refl))
            (take _ 1 refl (ne _ _ refl)))
          (take _ 2 refl (ne _ _ refl)))
        (win _ 1 refl refl (below 0 65536 refl)))
      (lose _ 2 refl (ne _ _ refl)),
)

delivered_once_example :
    (((two_thieves.0).popped ++ contents 4 (two_thieves.0).queue) ≡ (two_thieves.0).pushed)
    × (length (contents 4 (two_thieves.0).queue) ≤ 4)
    × ((i : ℕ) → (two_thieves.0).place i ≡ leaving → Spinlock.unlock (two_thieves.0).lock ≡ ok 0)
delivered_once_example =
    delivered_once (record { rounds = 16384; divides = refl; more = omega arith }) two_thieves.1

popped_test : (two_thieves.0).popped ≡ 7 ∷ []
unfolding two_thieves
popped_test = refl
