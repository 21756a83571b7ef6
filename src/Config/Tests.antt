-- ===== src/Config/Tests.antt =====
-- The configuration of src/utils/config.c at concrete inputs.
use arax_g_rpc.Prelude.{
  ℕ, Bool, true, false, not, ◌&&◌, leb, ◌≡◌, ◌^◌, ◌++◌, refl, subst, replicate, List, [], ◌∷◌, none,
  some, length, arith,
}
use arax_g_rpc.AccelTypes.{codes}
use arax_g_rpc.Prelude.Outcome.{ok, fault}
use arax_g_rpc.Config.Text.{Str, string_in, strncpy, is_space, is_empty, same, skip_space}
use arax_g_rpc.Config.Numbers.{pos, negsuc, in_range, value, strtol}
use arax_g_rpc.Config.Scan.{NoSpace, IsWord}
use arax_g_rpc.Config.Lines.{Entry, line, print, first_of, AreEntries, look_up-print, get_str-again}
use arax_g_rpc.Config.Typed.{Returns, typed_values}
use arax_g_rpc.Config.Path.{Expands, alloc_path, alloc_path_lem}
use arax_g_rpc.Config.{look_up, get_str, get_long, get_int, get_bool, get_size, is_bool, is_size}

abbrev entries : List Entry
entries =
    record { key = codes "shm_file"; text = codes "arax" }
    ∷ record { key = codes "shm_size"; text = codes "0x100" }
    ∷ record { key = codes "shm_trunc"; text = codes "2" }
    ∷ []

no_space : Str → Bool
unfolding is_space
no_space [] = true
no_space (c ∷ s) = not (is_space c) && no_space s

no_space-NoSpace : (s : Str) → no_space s ≡ true → NoSpace s
unfolding no_space NoSpace is_space
no_space-NoSpace [] e = tt
no_space-NoSpace (c ∷ s) e = (ground (arith, e), no_space-NoSpace s (ground (arith, e)))

IsWord-test :
    (n : ℕ) (s : Str)
    → is_empty s ≡ false
    → leb (length s) n ≡ true
    → no_space s ≡ true
    → IsWord n s
IsWord-test n s a b c = (a, ground (arith, b), no_space-NoSpace s c)

entries-AreEntries : AreEntries entries
unfolding AreEntries is_empty no_space
entries-AreEntries = (
  IsWord-test 127 (codes "shm_file") refl refl refl,
  IsWord-test 895 (codes "arax") refl refl refl,
  (
    IsWord-test 127 (codes "shm_size") refl refl refl,
    IsWord-test 895 (codes "0x100") refl refl refl,
    (
      IsWord-test 127 (codes "shm_trunc") refl refl refl,
      IsWord-test 895 (codes "2") refl refl refl,
      tt,
    ),
  ),
)

look_up-print_example :
    look_up (some (print entries)) (codes "shm_size") ≡ ok (first_of (codes "shm_size") entries)
look_up-print_example = look_up-print entries (codes "shm_size") entries-AreEntries

get_str-again_example :
    let file = some (print entries ++ line (record { key = codes "x"; text = codes "y" })) in
    (get_str (some (print entries)) (codes "x") 1024 (some (codes "y"))
      ≡ ok (record { found = 0; stored = some (strncpy 1024 (codes "y")); file = file }))
    × (get_str file (codes "x") 1024 none
        ≡ ok (record { found = 1; stored = some (strncpy 1024 (codes "y")); file = file }))
unfolding same is_empty no_space
get_str-again_example =
    get_str-again entries (codes "x") (codes "y") 1024 none entries-AreEntries
      (IsWord-test 127 (codes "x") refl refl refl) (IsWord-test 895 (codes "y") refl refl refl) refl

size_test :
    get_size (some (print entries)) (codes "shm_size") (pos 7)
    ≡ ok (record { found = 1; stored = pos 256; file = some (print entries) })
unfolding get_size is_space
size_test = refl

bool_test :
    get_bool (some (print entries)) (codes "shm_trunc") (pos 1)
    ≡ ok (record { found = 0; stored = pos 1; file = some (print entries) })
unfolding get_bool is_space
bool_test = refl

-- A value of 22 digits leaves `cval` without a NUL.
long_value_test : get_long (some (codes "k 0000000000000000000001\n")) (codes "k") (pos 0) ≡ fault
unfolding get_long is_space
long_value_test = refl

negative_test : strtol (codes "-017") ≡ value (negsuc 14)
unfolding strtol skip_space is_space
negative_test = refl

typed_values_example :
    let file = some (print entries) in
    let key = codes "shm_size" in
    Returns (in_range (2 ^ 63)) file key (pos 7) (get_long file key (pos 7))
    × Returns (in_range (2 ^ 31)) file key (pos 7) (get_int file key (pos 7))
    × Returns is_bool file key (pos 7) (get_bool file key (pos 7))
    × Returns is_size file key (pos 7) (get_size file key (pos 7))
unfolding string_in strncpy same
typed_values_example =
    typed_values (some (print entries)) (codes "shm_size") (pos 7) (some (codes "0x100"))
      (look_up-print entries (codes "shm_size") entries-AreEntries)
      λ text e. (
        codes "0x100",
        let q : codes "0x100" ≡ text = cc in
            subst (λ t. string_in (strncpy 22 t) ≡ some (codes "0x100")) q refl,
      )

alloc_path_lem_example :
    Expands
      (codes "/home/a")
      4096
      (codes "~/.arax")
      (alloc_path (codes "/home/a") (some (codes "~/.arax")))
alloc_path_lem_example = alloc_path_lem (codes "/home/a") (codes "~/.arax") (omega arith)

path_test :
    alloc_path (codes "/home/a") (some (codes "~/.arax")) ≡ ok (some (codes "/home/a/.arax"))
unfolding alloc_path
path_test = refl

-- A home directory that takes the whole buffer is copied with its NUL behind it.
overrun_test : alloc_path (replicate 4096 b'h') (some (b'~' ∷ [])) ≡ fault
unfolding alloc_path
overrun_test = refl
