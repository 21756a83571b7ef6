-- ===== src/Core/Vaccel/Order.antt =====
-- Tasks that go through the queue of a virtual accelerator (src/core/arax_vaccel.c).
use arax_g_rpc.Prelude.{ℕ, ◌≡◌, ◌≢◌, ◌<◌, refl, ap, ◌∙◌, List, [], ◌∷◌, ◌++◌, some, arith}
use arax_g_rpc.Prelude.Outcome.{Outcome, ok, abort, fault, blocked, no_fuel}
use arax_g_rpc.Prelude.Outcome
use arax_g_rpc.Queue
use arax_g_rpc.Queue.{Queue, used_slots}
use arax_g_rpc.Queue.Spec
use arax_g_rpc.Queue.Inv.{IsCapacity, IsValid, push-IsValid}
use arax_g_rpc.Queue.Refine.{contents, length-contents, pop_refines, push_refines}
use arax_g_rpc.Core.World.{Ptr, Vaccel, virt, Object, World, ◌>>=◌, ◌>>◌}
use arax_g_rpc.Core.World.Memory.{find, replace}
use arax_g_rpc.Core.Object.Counts.{find-replace}
use arax_g_rpc.Core.Vaccel.{queue_capacity, add_task, pop_task}

capacity : IsCapacity queue_capacity
capacity = record { rounds = 256; divides = refl; more = omega arith }

returned :
    (m : Outcome (ℕ × Queue)) (x : ℕ) (l : List ℕ)
    → Outcome.◌>>=◌ {B = ℕ × List ℕ} m (λ (r, q'). ok (r, contents queue_capacity q')) ≡ ok (x, l)
    → (q' : Queue) × (m ≡ ok (x, q')) × (contents queue_capacity q' ≡ l)
returned (ok (r, q')) x l e = (q', ground (arith, e), ground (arith, e))
returned abort x l e = cc
returned fault x l e = cc
returned blocked x l e = cc
returned no_fuel x l e = cc

-- A push that finds room.
push-Taken :
    (q : Queue) (x : ℕ)
    → IsValid queue_capacity q
    → x ≢ 0
    → used_slots q < queue_capacity
    → (q' : Queue) × (Queue.push queue_capacity q x ≡ ok (x, q'))
      × (contents queue_capacity q' ≡ contents queue_capacity q ++ (x ∷ []))
unfolding Spec.push
push-Taken q x v nz room =
    returned (Queue.push queue_capacity q x) x (contents queue_capacity q ++ (x ∷ []))
      (push_refines capacity v x ∙ ground (arith, nz, room, length-contents queue_capacity q))

-- Where an unassigned virtual accelerator has room in its queue, a task that is added returns at once,
-- and the task taken out next is the first of those that waited, or the one added if none did.
pub pop_task-add_task :
    (p : Ptr) (w : World) (o : Object) (v : Vaccel) (x : ℕ)
    → find p w.cells ≡ some o
    → o.body ≡ virt v
    → v.phys ≡ 0
    → IsValid queue_capacity v.queue
    → x ≢ 0
    → used_slots v.queue < queue_capacity
    → (w' : World) × ((do add_task p x; pop_task p) w
        ≡ ok ((Spec.pop (contents queue_capacity v.queue ++ (x ∷ []))).0, w'))
unfolding add_task pop_task ◌>>=◌
pop_task-add_task p w o v x live is alone valid nz room =
    let (q', e, c) = push-Taken v.queue x valid nz room in
    let valid' = push-IsValid capacity valid x e in
    let popped = ap (λ r. r.0) (pop_refines capacity valid') in
    let put = record o { body = virt (record v { queue = q' }) } in
    let first = find-replace p o put w.cells live in
    let got = popped ∙ ap (λ l. (Spec.pop l).0) c in
    let taken = record o { body = virt (record v { queue = (Queue.pop queue_capacity q').1 }) } in
    (
      record w { cells = replace p taken (replace p put w.cells) },
      ground (arith, live, is, alone, e, first, got, nz),
    )
