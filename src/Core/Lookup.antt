-- ===== src/Core/Lookup.antt =====
-- src/core/arax_pipe.c: searches of the repository lists.
pub mod Reads
use arax_g_rpc.Prelude.{
  ℕ, Bool, true, false, not, ◌&&◌, ◌||◌, List, [], ◌∷◌, Option, none, some, ◌==◌, if◌then◌else◌,
}
use arax_g_rpc.Prelude.Outcome.{Outcome, ok}
use arax_g_rpc.Core.World.{Ptr, Object, World, M, pure, ◌>>=◌, ◌>>◌, lift, gets, modify}
use arax_g_rpc.Core.World.Memory.{load, load_phys, has}

-- `strcmp(a, b) == 0`
pub same : List ℕ → List ℕ → Bool
same [] [] = true
same [] (d ∷ b) = false
same (c ∷ a) [] = false
same (c ∷ a) (d ∷ b) = (c == d) && same a b

find_proc_in : List Ptr → List ℕ → M Ptr
unfolding load same
find_proc_in [] name = pure 0
find_proc_in (p ∷ ps) name = do
  o ← load p
  if same name o.name then pure p else find_proc_in ps name

-- NULL where no procedure has the name
unfoldable pub find_proc : List ℕ → M Ptr
unfolding find_proc_in
find_proc name = do ps ← gets (λ w. w.repo.procs); find_proc_in ps name

-- No name given matches every accelerator.
name_matches : Option (List ℕ) → List ℕ → Bool
unfolding same
name_matches none n = true
name_matches (some name) n = same name n

find_accel_in : List Ptr → Option (List ℕ) → ℕ → M Ptr
unfolding load load_phys name_matches
find_accel_in [] name type = pure 0
find_accel_in (p ∷ ps) name type = do
  a ← load_phys p
  o ← load p
  if (type == 0 || type == a.type) && name_matches name o.name
      then pure p
      else find_accel_in ps name type

unfoldable pub find_accel : Option (List ℕ) → ℕ → M Ptr
unfolding find_accel_in
find_accel name type = do ps ← gets (λ w. w.repo.accels); find_accel_in ps name type

-- 0 if the accelerator was registered, and its reference is dropped; 1 if not.
unfoldable pub delete_accel : (Ptr → M ℕ) → Ptr → M ℕ
unfolding has
delete_accel dec p = do
  ps ← gets (λ w. w.repo.accels)
  if has p ps then (do _ ← dec p; pure 0) else pure 1
