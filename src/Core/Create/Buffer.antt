-- ===== src/Core/Create/Buffer.antt =====
-- Where the buffer of a data object lies (src/core/arax_data.c, `arax_data_init_aligned`).
use native.Mathlib.Nat.{div-add-mod, mod-lt, add-mod_right, add-mul-mod_self_left, zero-mod}
use arax_g_rpc.Prelude.{ℕ, ◌*◌, ◌/◌, ap, ◌∙◌, ◌+◌, ◌-◌, ◌%◌, ◌^◌, ◌≡◌, ◌<◌, ◌≤◌, arith}
use arax_g_rpc.Core.World.{Ptr, Platform}
use arax_g_rpc.Core.Create.{data_alloc_size, buffer_of}

next_multiple : (s k : ℕ) → 0 < k → s + k - s % k ≡ 0 + k * (s / k) + k
next_multiple s k h = omega (arith, div-add-mod s k, mod-lt s h)

-- The next multiple after a number.
aligned : (s k : ℕ) → 0 < k → (s + k - s % k) % k ≡ 0
aligned s k h =
    ap (λ x. x % k) (next_multiple s k h)
    ∙ add-mod_right (0 + k * (s / k)) k
    ∙ add-mul-mod_self_left 0 k (s / k)
    ∙ zero-mod k

-- For an alignment above zero, where the object, with the room for its buffer, ends within the address
-- space, so that no sum wraps: the buffer is aligned as asked, the pointer in front of it stands behind
-- the structure, and the whole buffer lies inside the memory that the object is registered with.
pub buffer_fits :
    (env : Platform) (p : Ptr) (size align : ℕ)
    → 0 < align
    → p + env.data_size + size + align + 8 < 2 ^ 64
    → (buffer_of env p align % align ≡ 0)
      × (p + env.data_size ≤ buffer_of env p align - 8)
      × (buffer_of env p align + size ≤ p + data_alloc_size env size align)
unfolding buffer_of data_alloc_size
buffer_fits env p size align h small =
    let start = p + env.data_size + 8 in
    let start_is : start % 2 ^ 64 ≡ start = omega (arith, small) in
    let same : buffer_of env p align ≡ start + align - start % align =
      ap (λ s. (s + align + 2 ^ 64 - s % align) % 2 ^ 64) start_is
      ∙ omega (arith, small, mod-lt start h) in
    (
      ap (λ b. b % align) same ∙ aligned start align h,
      omega (arith, same, mod-lt start h),
      omega (arith, same, small, mod-lt start h),
    )
