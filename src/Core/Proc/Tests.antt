-- ===== src/Core/Proc/Tests.antt =====
-- A procedure at 64 with a functor for the type 2.
use native.Mathlib.Nat.{zero-div}
use arax_g_rpc.Prelude.{
  ℕ, zero, suc, ◌^◌, ◌≡◌, ◌≢◌, refl, true, not, ◌&&◌, [], ◌∷◌, ◌==◌, if◌then◌else◌, get_or,
  replicate, arith,
}
use arax_g_rpc.Prelude.Outcome.{ok}
use arax_g_rpc.AccelTypes.{any, valid_type}
use arax_g_rpc.Core.World.{Proc, proc, Object, World, pure, ◌>>=◌}
use arax_g_rpc.Core.World.Memory.{find, replace}
use arax_g_rpc.Core.Proc.{get_functor, set_functor, can_run_at}
use arax_g_rpc.Core.Proc.Functors.{
  Matches, with_functor, with_proc, with_functor-Matches, set_functor_lem,
}

abbrev on_gpu : Proc
on_gpu = record { functors = 0 ∷ 0 ∷ 9000 ∷ 0 ∷ 0 ∷ 0 ∷ 0 ∷ 0 ∷ 0 ∷ []; canrun = 4 }

abbrev held : Object
held = record { alloc_size = 120; ref_count = 1; name = []; body = proc on_gpu }

abbrev one_proc : World
one_proc = record {
  cells = record { address = 64; object = held } ∷ [];
  repo = record { accels = []; vaccels = []; procs = 64 ∷ []; datas = []; tasks = [] };
  throttle = record { available = 880; capacity = 1000 };
  orphan_vacs = [];
}

-- The procedure as it was registered.
abbrev empty : Proc
empty = record { functors = replicate 9 0; canrun = 0 }

abbrev held_empty : Object
held_empty = record { alloc_size = 120; ref_count = 1; name = []; body = proc empty }

no_functor : (t : ℕ) → get_or empty.functors t 0 ≡ 0
no_functor zero = refl
no_functor (suc zero) = refl
no_functor (suc (suc zero)) = refl
no_functor (suc (suc (suc zero))) = refl
no_functor (suc (suc (suc (suc zero)))) = refl
no_functor (suc (suc (suc (suc (suc zero))))) = refl
no_functor (suc (suc (suc (suc (suc (suc zero)))))) = refl
no_functor (suc (suc (suc (suc (suc (suc (suc zero))))))) = refl
no_functor (suc (suc (suc (suc (suc (suc (suc (suc zero)))))))) = refl
no_functor (suc (suc (suc (suc (suc (suc (suc (suc (suc t))))))))) = refl

empty-Matches : Matches empty
empty-Matches t = ground (arith, no_functor t, zero-div (2 ^ t))

on_gpu-Matches : Matches on_gpu
unfolding find valid_type
on_gpu-Matches =
    with_functor-Matches
      (record one_proc { cells = record { address = 64; object = held_empty } ∷ [] }) 64 held_empty
      empty refl refl refl 2 9000 refl (λ e. omega (arith, e)) empty-Matches

set_functor_lem_example :
    let after : World = with_proc one_proc 64 held (with_functor on_gpu 3 9500) in
    (set_functor 64 3 9500 one_proc ≡ ok (get_or on_gpu.functors 3 0, after))
    × Matches (with_functor on_gpu 3 9500)
    × ((t : ℕ)
        → valid_type t ≡ true
        → get_functor 64 t after ≡ ok (if t == 3 then 9500 else get_or on_gpu.functors t 0, after))
    × ((t : ℕ)
        → valid_type t ≡ true
        → t ≢ any
        → can_run_at 64 t after
          ≡ ok (not ((if t == 3 then 9500 else get_or on_gpu.functors t 0) == 0), after))
unfolding find valid_type
set_functor_lem_example =
    set_functor_lem one_proc 64 held on_gpu refl refl refl 3 9500 refl (λ e. omega (arith, e))
      on_gpu-Matches

-- Taking the functor away leaves the bit.
taken_away_test :
    (do
      _ ← set_functor 64 2 0
      now ← get_functor 64 2
      runs ← can_run_at 64 2
      pure (now == 0) >>= λ gone. pure (gone && runs))
      one_proc
    ≡ ok (true, with_proc one_proc 64 held (with_functor on_gpu 2 0))
unfolding set_functor get_functor can_run_at find replace ◌>>=◌
taken_away_test = refl
