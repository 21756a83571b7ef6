-- ===== src/Core/Release/Last.antt =====
-- The last reference to a procedure (src/core/arax_object.c and arax_proc.c).
use arax_g_rpc.Prelude.{ℕ, suc, ◌+◌, ◌≡◌, ◌≢◌, ◌<◌, ◌≤◌, refl, List, [], ◌∷◌, some, arith}
use arax_g_rpc.Prelude.Outcome.{ok}
use arax_g_rpc.Throttle
use arax_g_rpc.Core.World.{Ptr, Proc, proc, Object, Cell, World, Platform, ◌>>=◌}
use arax_g_rpc.Core.World.Memory.{find, replace, remove, unlink}
use arax_g_rpc.Core.Object.{ref_dec_with, valid_type}
use arax_g_rpc.Core.Object.Counts.{find-replace}
use arax_g_rpc.Core.Release.{ref_dec, dtor}

remove-replace : (p : Ptr) (n : Object) (cs : List Cell) → remove p (replace p n cs) ≡ remove p cs
unfolding remove replace
remove-replace p n [] = refl
remove-replace p n (c ∷ cs) = ground (arith, remove-replace p n cs)

-- Dropping the last reference to a registered procedure takes it off the list of procedures, frees its
-- memory and gives the bytes that it was registered with back to the budget, and no more fuel than one
-- is needed for it, as long as the budget has room for the bytes.
pub ref_dec-last :
    (env : Platform) (fuel : ℕ) (w : World) (o : Object) (b : Proc) (p : Ptr)
    → find p w.cells ≡ some o
    → o.body ≡ proc b
    → o.ref_count ≡ 1
    → p ≢ 0
    → w.throttle.available + o.alloc_size ≤ w.throttle.capacity
    → w.throttle.capacity < Throttle.u64
    → ref_dec env (suc fuel) p w
      ≡ ok (
        0,
        record w {
          cells = remove p w.cells;
          repo = record w.repo { procs = unlink p w.repo.procs };
          throttle = record w.throttle { available = w.throttle.available + o.alloc_size };
        },
      )
unfolding ref_dec ref_dec_with dtor ◌>>=◌ valid_type
ref_dec-last env fuel w o b p live is_proc one nz room small = ground (
  arith,
  find-replace p o (record o { ref_count = 0 }) w.cells live,
  remove-replace p (record o { ref_count = 0 }) w.cells,
)
