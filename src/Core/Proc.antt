-- ===== src/Core/Proc.antt =====
-- src/core/arax_proc.c: procedures, and the accelerator types that they can run on.
pub mod Bits
pub mod Functors
pub mod Tests
use arax_g_rpc.Prelude.{ℕ, ◌+◌, ◌/◌, ◌%◌, ◌^◌, Bool, not, ◌==◌, if◌then◌else◌, get_or, set}
use arax_g_rpc.Prelude.Outcome.{arax_assert}
use arax_g_rpc.AccelTypes.{any, valid_type}
use arax_g_rpc.Core.World.{Ptr, proc, M, pure, ◌>>=◌, ◌>>◌, lift}
use arax_g_rpc.Core.World.Memory.{load_proc, store_body}

-- `!!(canrun & (1llu << type))`
abbrev pub test_bit : ℕ → ℕ → Bool
test_bit n i = not (n / 2 ^ i % 2 == 0)

-- `canrun | (1llu << type)`
abbrev pub set_bit : ℕ → ℕ → ℕ
set_bit n i = if test_bit n i then n else n + 2 ^ i

unfoldable pub get_functor : Ptr → ℕ → M Ptr
unfolding load_proc valid_type
get_functor p type = do
  lift (arax_assert (valid_type type))
  r ← load_proc p
  pure (get_or r.functors type 0)

unfoldable pub set_functor : Ptr → ℕ → Ptr → M Ptr
unfolding get_functor load_proc store_body
set_functor p type vfn = do
  old ← get_functor p type
  r ← load_proc p
  store_body p
      (proc (record r { functors = set r.functors type vfn; canrun = set_bit r.canrun type }))
  pure old

unfoldable pub can_run_at : Ptr → ℕ → M Bool
unfolding load_proc valid_type
can_run_at p type = do
  lift (arax_assert (valid_type type))
  lift (arax_assert (not (type == any)))
  r ← load_proc p
  pure (test_bit r.canrun type)
