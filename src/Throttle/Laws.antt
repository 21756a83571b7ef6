-- ===== src/Throttle/Laws.antt =====
-- A throttle never hands out more than its capacity, and takes back what it handed out.
use arax_g_rpc.Prelude.{ℕ, ◌+◌, ◌-◌, ◌≤◌, ◌<◌, ◌≡◌, ◌⊎◌, inl, inr, arith, dec_lt}
use arax_g_rpc.Prelude.Outcome.{ok, abort, blocked}
use arax_g_rpc.Throttle.{Throttle, u64, init, size_inc, size_dec}

pub record IsValid (thr : Throttle) : Type 0 where
  pub within : thr.available ≤ thr.capacity
  pub small : thr.capacity < u64

-- For a total size within `size_t`, `arax_throttle_init` returns a valid throttle where the
-- available size is positive and at most the total one; else it aborts, and the available size is
-- zero or above the total.
init_lem :
    (a t : ℕ)
    → t < u64
    → (0 < a) × (a ≤ t) × ((thr : Throttle) × (init a t ≡ ok thr) × IsValid thr)
      ⊎ (init a t ≡ abort) × ((a ≡ 0) ⊎ (t < a))
unfolding init
init_lem a t h = elim (dec_lt 0 a) [
  | yes p ↦ elim (dec_lt t a) [
    | yes q ↦ inr (ground arith, inr q)
    | no q ↦
        inl (p, omega arith, (record { available = a; capacity = t }, ground arith, omega arith))
  ]
  | no p ↦ inr (ground arith, inl (omega arith))
]

module _ {thr : Throttle} (v : IsValid thr) where
  -- On a valid throttle `arax_throttle_size_dec` sleeps where less is available than is asked for;
  -- else it takes the size from what is available, without an abort, and leaves a valid throttle.
  size_dec_lem :
      (sz : ℕ)
      → (size_dec thr sz ≡ blocked) × (thr.available < sz)
        ⊎ (size_dec thr sz ≡ ok (record thr { available = thr.available - sz }))
          × (sz ≤ thr.available)
          × IsValid (record thr { available = thr.available - sz })
  unfolding size_dec
  size_dec_lem sz = elim (dec_lt thr.available sz) [
    | yes p ↦ inl (ground arith, p)
    | no p ↦ inr (ground arith, omega arith, omega (arith, v.within, v.small))
  ]

  -- On a valid throttle, for a size that does not wrap `size_t` on top of the capacity,
  -- `arax_throttle_size_inc` aborts where more would be available than the capacity; else it adds
  -- the size and leaves a valid throttle.
  size_inc_lem :
      (sz : ℕ)
      → sz < u64 - thr.capacity
      → (size_inc thr sz ≡ abort) × (thr.capacity < thr.available + sz)
        ⊎ (size_inc thr sz ≡ ok (record thr { available = thr.available + sz }))
          × (thr.available + sz ≤ thr.capacity)
          × IsValid (record thr { available = thr.available + sz })
  unfolding size_inc
  size_inc_lem sz h = elim (dec_lt thr.capacity (thr.available + sz)) [
    | yes p ↦ inl (ground (arith, v.within, v.small), p)
    | no p ↦ inr (ground (arith, v.within, v.small), omega arith, omega (arith, v.within, v.small))
  ]
