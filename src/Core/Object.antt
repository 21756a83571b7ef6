-- ===== src/Core/Object.antt =====
-- src/core/arax_object.c: registration and reference counts, in a build without ARAX_REF_DEBUG.
-- `dec` stands for `arax_object_ref_dec` itself where a destructor calls it (Core/Release ties the knot).
pub mod Tests
pub mod Balance
pub mod Counts
pub mod Failed
use arax_g_rpc.Prelude.{
  ℕ, ◌+◌, ◌-◌, ◌%◌, ◌^◌, Bool, true, false, not, ◌&&◌, List, [], ◌∷◌, Option, none, some, ltb, ◌==◌,
  if◌then◌else◌, take, length,
}
use arax_g_rpc.Prelude.Outcome.{Outcome, ok, arax_assert}
use arax_g_rpc.Throttle
use arax_g_rpc.Core.World.{
  Ptr, ObjectType, phys_accel, virt_accel, proc_type, data_type, task_type, type_count, Body,
  type_of, Object, Cell, Repo, World, Platform, M, pure, ◌>>=◌, ◌>>◌, lift, gets, modify,
}
use arax_g_rpc.Core.World.Memory.{load, store, free, repo_list, set_repo_list, unlink}

-- ARAX_OBJECT_NAME_SIZE, of which one byte is the NUL
abbrev pub name_size : ℕ
name_size = 32

-- the values of an `int`
abbrev pub u32 : ℕ
u32 = 2 ^ 32

-- A 32-bit pattern that stands for a number above zero, or from zero on.
abbrev pub positive : ℕ → Bool
positive n = ltb 0 n && ltb n (2 ^ 31)

abbrev pub nonnegative : ℕ → Bool
nonnegative n = ltb n (2 ^ 31)

abbrev pub repo_init : Repo
repo_init = record { accels = []; vaccels = []; procs = []; datas = []; tasks = [] }

-- The number of objects still registered.
unfoldable pub repo_exit : Repo → ℕ
repo_exit r = length r.accels + length r.vaccels + length r.procs + length r.datas + length r.tasks

-- `arax_pipe_size_dec` and `arax_pipe_size_inc`
unfoldable pub pipe_size_dec : ℕ → M (Unit {0})
unfolding Throttle.size_dec
pipe_size_dec sz = do
  t ← gets (λ w. w.throttle)
  t' ← lift (Throttle.size_dec t sz)
  modify (λ w. record w { throttle = t' })

unfoldable pub pipe_size_inc : ℕ → M (Unit {0})
unfolding Throttle.size_inc
pipe_size_inc sz = do
  t ← gets (λ w. w.throttle)
  t' ← lift (Throttle.size_inc t sz)
  modify (λ w. record w { throttle = t' })

-- `utils_list_add` and `utils_list_del` on the list of a type
list_add : ObjectType → Ptr → M (Unit {0})
unfolding repo_list set_repo_list
list_add t p = modify λ w. record w { repo = set_repo_list t (p ∷ repo_list t w.repo) w.repo }

list_del : ObjectType → Ptr → M (Unit {0})
unfolding repo_list set_repo_list unlink
list_del t p =
    modify λ w. record w { repo = set_repo_list t (unlink p (repo_list t w.repo)) w.repo }

-- `arch_alloc_allocate`, and the header and zeroed body of what it returns. NULL is 0.
allocate : Platform → ℕ → Object → M Ptr
allocate env size o w =
    let p = env.allocate w.cells size in
    if p == 0
    then ok (0, w)
    else ok (p, record w { cells = record { address = p; object = o } ∷ w.cells })

module _ (env : Platform) where
  -- `body` is the zeroed structure of the type that is registered.
  unfoldable pub register : List ℕ → ℕ → ℕ → Body → M Ptr
  unfolding pipe_size_dec allocate list_add
  register name size ref_count body = do
    pipe_size_dec size
    p ← allocate env size (record {
      alloc_size = size;
      ref_count = ref_count;
      name = take (name_size - 1) name;
      body = body;
    })
    if p == 0 then pure 0 else do list_add (type_of body) p; pure p

-- `arax_object_rename`, after formatting
unfoldable pub rename : Ptr → List ℕ → M (Unit {0})
unfolding load store
rename p name = do o ← load p; store p (record o { name = take (name_size - 1) name })

-- `obj->ref_count = n`
set_ref_count : Ptr → ℕ → M (Unit {0})
unfolding load store
set_ref_count p n = do o ← load p; store p (record o { ref_count = n })

unfoldable pub valid_type : ObjectType → Bool
valid_type type_count = false
valid_type _ = true

unfoldable pub ref_inc : Ptr → M (Unit {0})
unfolding load set_ref_count valid_type
ref_inc p = do
  lift (arax_assert (not (p == 0)))
  o ← load p
  lift (arax_assert (valid_type (type_of o.body)))
  lift (arax_assert (nonnegative o.ref_count))
  set_ref_count p ((o.ref_count + 1) % u32)

-- The size is read from the object that is then given back.
give_back : Ptr → M (Unit {0})
unfolding load free pipe_size_inc
give_back p = do o ← load p; free p; pipe_size_inc o.alloc_size

-- What `arax_object_ref_dec` and its pre-locked form do with an object whose count is zero.
-- `dtor` is the entry of `dtor_table`; the size is read again after it has run.
unfoldable pub release : (ObjectType → Ptr → M (Unit {0})) → ObjectType → Ptr → M (Unit {0})
unfolding list_del give_back
release dtor t p = do list_del t p; dtor t p; give_back p

module _ (dtor : ObjectType → Ptr → M (Unit {0})) where
  unfoldable pub ref_dec_with : Ptr → M ℕ
  unfolding load set_ref_count valid_type release
  ref_dec_with p = do
    lift (arax_assert (not (p == 0)))
    o ← load p
    lift (arax_assert (valid_type (type_of o.body)))
    lift (arax_assert (positive o.ref_count))
    let refs = (o.ref_count + u32 - 1) % u32
    set_ref_count p refs
    if refs == 0 then (do release dtor (type_of o.body) p; pure refs) else pure refs

  unfoldable pub ref_dec_pre_locked_with : Ptr → M ℕ
  unfolding load set_ref_count release
  ref_dec_pre_locked_with p = do
    o ← load p
    let refs = (o.ref_count + u32 - 1) % u32
    set_ref_count p refs
    if refs == 0 then (release dtor (type_of o.body) p) else pure tt
    lift (arax_assert (nonnegative refs))
    pure refs

unfoldable pub refs : Ptr → M ℕ
unfolding load
refs p = do o ← load p; pure o.ref_count
