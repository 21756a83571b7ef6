-- ===== src/Core/Task/Completion.antt =====
-- Waiting for a task and completing it (src/core/arax_task.c, and `arax_task_wait` of
-- src/arch/shm/impl.c).
use arax_g_rpc.Prelude.{◌≡◌, ◌≢◌, ◌⊎◌, inl, inr, refl, ap, true, false, Bool-cases, some, arith}
use arax_g_rpc.Prelude.Outcome.{ok, abort, blocked}
use arax_g_rpc.Core.World.{
  Ptr, Task, TaskState, task_failed, task_issued, task_completed, task, Object, World, ◌>>=◌, ◌>>◌,
}
use arax_g_rpc.Core.World.Memory.{find, replace}
use arax_g_rpc.Core.Object.Counts.{find-replace, replace-replace}
use arax_g_rpc.Core.Task.{mark_done, wait_done, wait, is_issued_or_completed}

-- The segment with the task at `p` in another state.
abbrev pub with_task : Ptr → Object → Task → World → World
with_task p o t w = record w { cells = replace p (record o { body = task t }) w.cells }

-- A wait for a task that is issued or completed.
wait_sound :
    (p : Ptr) (w : World) (o : Object) (t : Task)
    → find p w.cells ≡ some o
    → o.body ≡ task t
    → is_issued_or_completed t.state ≡ true
    → (t.done ≡ false) × (wait p w ≡ blocked)
      ⊎ (t.done ≡ true) × (wait p w ≡ ok (t.state, with_task p o (record t { done = false }) w))
unfolding wait wait_done ◌>>=◌
wait_sound p w o t live is sound =
    let stored =
      find-replace p o (record o { body = task (record t { done = false }) }) w.cells live in
    elim (Bool-cases t.done) [
      | inl d ↦ inr (d, ground (arith, live, is, sound, d, stored))
      | inr d ↦ inl (d, ground (arith, live, is, sound, d))
    ]

marked :
    (p : Ptr) (w : World) (o : Object) (t : Task) (s : TaskState)
    → find p w.cells ≡ some o
    → o.body ≡ task t
    → is_issued_or_completed s ≡ true
    → (do mark_done p s; wait p) w ≡ ok (s, with_task p o (record t { state = s; done = false }) w)
unfolding mark_done wait wait_done ◌>>=◌
marked p w o t s live is sound =
    let done = record o { body = task (record t { state = s; done = true }) } in
    let left = record o { body = task (record t { state = s; done = false }) } in
    let first = find-replace p o done w.cells live in
    ground (
      arith,
      live,
      is,
      sound,
      first,
      find-replace p done left (replace p done w.cells) first,
      replace-replace p done left w.cells,
    )

-- Waiting for a task that lives in the segment, by its state when the wait begins: for a failed task
-- an assertion fails; for a task that has not failed the call waits while the task is not done, and
-- returns the state where it is done, taking the completion with it, so that the next wait is for
-- another.
pub wait_lem :
    (p : Ptr) (w : World) (o : Object) (t : Task)
    → find p w.cells ≡ some o
    → o.body ≡ task t
    → (t.state ≡ task_failed) × (wait p w ≡ abort)
      ⊎ (t.state ≢ task_failed) × (t.done ≡ false) × (wait p w ≡ blocked)
      ⊎ (t.state ≢ task_failed)
        × (t.done ≡ true)
        × (wait p w ≡ ok (t.state, with_task p o (record t { done = false }) w))
unfolding wait wait_done ◌>>=◌ is_issued_or_completed
wait_lem p w o t live is = by_state t.state refl
  where
    going :
        is_issued_or_completed t.state ≡ true
        → t.state ≢ task_failed
        → (t.state ≡ task_failed) × (wait p w ≡ abort)
          ⊎ (t.state ≢ task_failed) × (t.done ≡ false) × (wait p w ≡ blocked)
          ⊎ (t.state ≢ task_failed)
            × (t.done ≡ true)
            × (wait p w ≡ ok (t.state, with_task p o (record t { done = false }) w))
    going sound n = elim (wait_sound p w o t live is sound) [
      | inl (d, r) ↦ inr (inl (n, d, r))
      | inr (d, r) ↦ inr (inr (n, d, r))
    ]

    by_state :
        (s : TaskState)
        → t.state ≡ s
        → (t.state ≡ task_failed) × (wait p w ≡ abort)
          ⊎ (t.state ≢ task_failed) × (t.done ≡ false) × (wait p w ≡ blocked)
          ⊎ (t.state ≢ task_failed)
            × (t.done ≡ true)
            × (wait p w ≡ ok (t.state, with_task p o (record t { done = false }) w))
    by_state task_failed e = inl (e, ground (arith, e, live, is))
    by_state task_issued e = going (ap is_issued_or_completed e) λ f. cc
    by_state task_completed e = going (ap is_issued_or_completed e) λ f. cc

-- A wait that follows a completion returns the state that the task was completed with, issued or
-- completed, and leaves the task not done.
pub wait-mark_done :
    (p : Ptr) (w : World) (o : Object) (t : Task) (s : TaskState)
    → find p w.cells ≡ some o
    → o.body ≡ task t
    → s ≢ task_failed
    → (do mark_done p s; wait p) w ≡ ok (s, with_task p o (record t { state = s; done = false }) w)
unfolding mark_done wait wait_done ◌>>=◌ is_issued_or_completed
wait-mark_done p w o t task_failed live is sound = absurd (sound refl)
wait-mark_done p w o t task_issued live is sound = marked p w o t task_issued live is refl
wait-mark_done p w o t task_completed live is sound = marked p w o t task_completed live is refl
