-- ===== src/Spin.antt =====
-- src/async/spin/async.c and async.h: completions, semaphores and conditions that spin on shared words.
-- A `while` loop on a compare-and-swap is one try, which is `blocked` where it has to be made again.
pub mod Completion
pub mod Semaphore
pub mod Exclusion
pub mod Tests
use arax_g_rpc.Prelude.{ℕ}
use arax_g_rpc.Prelude.Outcome.{Outcome, ok, ◌>>=◌}

-- `async_condition_s`
pub record Condition : Type 0 where
  pub mutex : ℕ
  pub semaphore : ℕ

unfoldable pub init : Condition
unfolding Completion.init Completion.complete Semaphore.init
init = record { mutex = Completion.complete Completion.init; semaphore = Semaphore.init }

unfoldable pub lock : Condition → Outcome Condition
unfolding Completion.wait
lock cond = do mutex ← Completion.wait cond.mutex; ok (record cond { mutex = mutex })

unfoldable pub unlock : Condition → Condition
unfolding Completion.complete
unlock cond = record cond { mutex = Completion.complete cond.mutex }

-- `async_condition_wait` in its three parts, between which other threads run: the mutex is completed,
-- the semaphore is taken, and the mutex is waited for.
unfoldable pub wait_begin : Condition → Condition
unfolding Completion.complete
wait_begin cond = record cond { mutex = Completion.complete cond.mutex }

unfoldable pub wait_semaphore : Condition → Outcome Condition
unfolding Semaphore.dec
wait_semaphore cond = do
  semaphore ← Semaphore.dec cond.semaphore
  ok (record cond { semaphore = semaphore })

unfoldable pub wait_end : Condition → Outcome Condition
unfolding Completion.wait
wait_end cond = do mutex ← Completion.wait cond.mutex; ok (record cond { mutex = mutex })

unfoldable pub notify : Condition → Condition
unfolding Semaphore.inc
notify cond = record cond { semaphore = Semaphore.inc cond.semaphore }
