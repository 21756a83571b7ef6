-- ===== src/Core/Proc/Functors.antt =====
-- The functors of a procedure and the accelerators it can run on (src/core/arax_proc.c).
use arax_g_rpc.Prelude.{
  ℕ, ◌≡◌, ◌≢◌, true, not, ◌==◌, if◌then◌else◌, some, get_or, set, length, get_or-set_self,
  get_or-set_ne, Bool-cases, inl, inr, arith,
}
use arax_g_rpc.Prelude.Outcome.{ok}
use arax_g_rpc.AccelTypes.{accel_types, any, valid_type}
use arax_g_rpc.Core.World.{Ptr, Proc, proc, Object, World, ◌>>=◌}
use arax_g_rpc.Core.World.Memory.{find, replace, load, load_proc, as_proc, store, store_body}
use arax_g_rpc.Core.Object.Counts.{find-replace}
use arax_g_rpc.Core.Proc.{test_bit, set_bit, get_functor, set_functor, can_run_at}
use arax_g_rpc.Core.Proc.Bits.{test_bit-set_bit}

-- The procedure with another functor, and the segment with the procedure written back.
abbrev pub with_functor : Proc → ℕ → Ptr → Proc
with_functor r type vfn = record r {
  functors = set r.functors type vfn;
  canrun = set_bit r.canrun type;
}

abbrev pub with_proc : World → Ptr → Object → Proc → World
with_proc w p o r = record w { cells = replace p (record o { body = proc r }) w.cells }

-- `canrun` has a bit for each type that has a functor, as arax_proc.h says.
abbrev pub Matches : Proc → Type 0
Matches r = (t : ℕ) → test_bit r.canrun t ≡ not (get_or r.functors t 0 == 0)

module _ (w : World) (p : Ptr) (o : Object) (r : Proc) (live : find p w.cells ≡ some o)
    (is : o.body ≡ proc r) (all_types : length r.functors ≡ accel_types) (type : ℕ) (vfn : Ptr)
    (valid : valid_type type ≡ true) where
  stored :
      set_functor p type vfn w
      ≡ ok (get_or r.functors type 0, with_proc w p o (with_functor r type vfn))
  unfolding set_functor get_functor load_proc load as_proc store_body store ◌>>=◌
  stored = ground (arith, live, is, valid)

  functors-after :
      (t : ℕ)
      → get_or (with_functor r type vfn).functors t 0
        ≡ (if t == type then vfn else get_or r.functors t 0)
  unfolding valid_type
  functors-after t = elim (Bool-cases (t == type)) [
    | inl e ↦
        let q : t ≡ type = ground (arith, e) in
        ground
          (arith, e, q, get_or-set_self r.functors type vfn 0 (ground (arith, valid, all_types)))
    | inr e ↦
        ground
          (arith, e, get_or-set_ne r.functors {i = type} {j = t} vfn 0 (λ q. ground (arith, q, e)))
  ]

  pub with_functor-Matches : vfn ≢ 0 → Matches r → Matches (with_functor r type vfn)
  with_functor-Matches nn m t = elim (Bool-cases (t == type)) [
    | inl e ↦ ground (arith, e, nn, functors-after t, test_bit-set_bit r.canrun type t)
    | inr e ↦ ground (arith, e, m t, functors-after t, test_bit-set_bit r.canrun type t)
  ]

  -- For a procedure that lives in the segment, with a place for each type, whose bits of `canrun` are
  -- those of the types that have a functor, and a functor that is not NULL: setting it for a valid type
  -- returns the functor that the type had; from then on the type gives the new functor and every other
  -- valid type the one it gave before; the bits are again those of the types that have a functor; and
  -- the procedure can run on a valid type other than ANY exactly where it has a functor for it.
  pub set_functor_lem :
      vfn ≢ 0
      → Matches r
      → (set_functor p type vfn w
          ≡ ok (get_or r.functors type 0, with_proc w p o (with_functor r type vfn)))
        × Matches (with_functor r type vfn)
        × ((t : ℕ)
            → valid_type t ≡ true
            → get_functor p t (with_proc w p o (with_functor r type vfn))
              ≡ ok (
                if t == type then vfn else get_or r.functors t 0,
                with_proc w p o (with_functor r type vfn),
              ))
        × ((t : ℕ)
            → valid_type t ≡ true
            → t ≢ any
            → can_run_at p t (with_proc w p o (with_functor r type vfn))
              ≡ ok (
                not ((if t == type then vfn else get_or r.functors t 0) == 0),
                with_proc w p o (with_functor r type vfn),
              ))
  unfolding get_functor can_run_at load_proc load as_proc ◌>>=◌
  set_functor_lem nn m =
      let there =
        find-replace p o (record o { body = proc (with_functor r type vfn) }) w.cells live in
      (
        stored,
        with_functor-Matches nn m,
        λ t good. ground (arith, there, functors-after t, good),
        λ t good other.
            ground (arith, there, functors-after t, with_functor-Matches nn m t, good, other),
      )
