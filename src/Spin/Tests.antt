-- ===== src/Spin/Tests.antt =====
-- A run of two threads on a condition: one waits, the other notifies it.
use arax_g_rpc.Prelude.{ℕ, ◌+◌, ◌^◌, ◌<◌, ◌≤◌, ◌≡◌, refl, arith}
use arax_g_rpc.Spin.{init, lock, unlock, wait_begin, wait_semaphore, wait_end, notify}
use arax_g_rpc.Spin.Exclusion.{
  Threads, Reach, here, next, enter, leave, sleep, wake, resume, tell, fresh, mutual_exclusion,
}

abbrev back : Threads
back = record {
  cond = record { mutex = 0; semaphore = 0 };
  inside = 1;
  asleep = 0;
  woken = 0;
  notified = 1;
  taken = 1;
}

back-Reach : Reach fresh back
unfolding init lock unlock wait_begin wait_semaphore wait_end notify
back-Reach =
    next
      (next
        (next
          (next (next (next (next here (enter fresh refl)) (sleep _ (omega arith))) (enter _ refl))
            (tell _ (omega arith)))
          (leave _ (omega arith)))
        (wake _ (omega arith) refl))
      (resume _ (omega arith) refl)

mutual_exclusion_example : (1 ≤ 1) × (◌≡◌ {A = ℕ} (0 + 1) 1) × (1 < 2 ^ 64 → ◌≡◌ {A = ℕ} (0 + 1) 1)
mutual_exclusion_example = mutual_exclusion back-Reach
