-- ===== src/Queue/Tests.antt =====
-- The queue of src/utils/queue.c at concrete inputs.
use arax_g_rpc.Prelude.{◌+◌, ◌%◌, ◌≡◌, refl, List, [], ◌∷◌, replicate, arith}
use arax_g_rpc.Prelude.Outcome.{ok}
use arax_g_rpc.Queue.{Queue, u16, init, used_slots, pop, push, peek}
use arax_g_rpc.Queue.Spec
use arax_g_rpc.Queue.Spec.{Call, put, get, look}
use arax_g_rpc.Queue.Inv.{IsCapacity, IsValid}
use arax_g_rpc.Queue.Refine.{run_refines, run_queue, contents}
use arax_g_rpc.Queue.Limit.{push-u16}

abbrev four : IsCapacity 4
four = record { rounds = 16384; divides = refl; more = omega arith }

-- Three entries, whose counters are about to wrap.
abbrev three : Queue
three = record { entries = 7 ∷ 8 ∷ 9 ∷ 6 ∷ []; bottom = 1; top = 65534 }

three-IsValid : IsValid 4 three
unfolding used_slots
three-IsValid = record {
  storage = refl;
  bottom_in = omega arith;
  top_in = omega arith;
  fits = omega arith;
}

abbrev calls : List Call
calls = put 5 ∷ put 3 ∷ get ∷ look ∷ get ∷ []

run_refines_example : run_queue 4 three calls ≡ Spec.run 4 (contents 4 three) calls
run_refines_example = run_refines four calls three three-IsValid

run_test : run_queue 4 three calls ≡ ok (5 ∷ 0 ∷ 9 ∷ 6 ∷ 6 ∷ [])
unfolding run_queue push pop peek
run_test = refl

abbrev empty : Queue
empty = record { entries = 0 ∷ 0 ∷ 0 ∷ 0 ∷ []; bottom = 0; top = 0 }

init_test : init 4 ≡ ok empty
unfolding init
init_test = refl

-- 65535 pointers at the largest capacity.
abbrev crammed : Queue
crammed = record { entries = replicate u16 5; bottom = 65535; top = 0 }

push-u16_example :
    (q' : Queue) × (push u16 crammed 9 ≡ ok (9, q'))
    × (used_slots q' ≡ (used_slots crammed + 1) % u16)
push-u16_example = push-u16 crammed 9 (omega arith) (omega arith) (λ e. omega (arith, e))
