-- ===== src/Pages/Tests.antt =====
-- The pages of src/alloc/dlmalloc/alloc.c at concrete inputs.
use arax_g_rpc.Prelude.{ℕ, ◌+◌, ◌*◌, ◌%◌, ◌≤◌, ◌≡◌, ◌≢◌, ◌⊎◌, refl, some, length, arith}
use arax_g_rpc.Prelude.Outcome.{ok}
use arax_g_rpc.Bitmap
use arax_g_rpc.Bitmap.Valid.{IsValid, init-IsValid}
use arax_g_rpc.Bitmap.Words.{and, or, complement, shl_by, popcount, clz, is_zero, is_full}
use arax_g_rpc.Pages.{Pages, page, init_once, mmap, ummap}
use arax_g_rpc.Pages.Layout.{init_once-fits}
use arax_g_rpc.Pages.Undo.{HasRoom, ummap-mmap}
use arax_g_rpc.Pages.Live.{
  Mappings, Reach, here, next, map, unmap, Region, unmapped, mappings_apart,
}

init_once-fits_example :
    let p = init_once 100 8192 1000000 in
    (p.start % page ≡ 0)
    × (8192 + 100 + length (p.bmp).chunks * 8 ≤ p.start)
    × ((p.bmp).size_bits ≤ length (p.bmp).chunks * 64)
    × (p.start + (p.bmp).size_bits * page ≤ 8192 + 1000000)
init_once-fits_example = init_once-fits 100 8192 1000000 (omega arith) (omega arith)

-- A hundred pages from address 40960 on.
abbrev hundred : Pages
hundred = record { start = 40960; bmp = Bitmap.init 100 }

hundred-IsValid : IsValid (hundred.bmp)
hundred-IsValid = (init-IsValid 100 (omega arith)).0

hundred-HasRoom : HasRoom hundred
unfolding Bitmap.init
hundred-HasRoom = omega arith

three_pages : (p : Pages) × (mmap hundred 12288 ≡ ok (p, 40960))
unfolding mmap Bitmap.init is_zero is_full clz and or popcount
three_pages = (_, refl)

ummap-mmap_example :
    (q : Pages) × (ummap three_pages.0 40960 12288 ≡ ok q)
    × (q.start ≡ hundred.start)
    × ((q.bmp).chunks ≡ (hundred.bmp).chunks)
    × ((q.bmp).used_bits ≡ (hundred.bmp).used_bits)
    × ((q.bmp).size_bits ≡ (hundred.bmp).size_bits)
ummap-mmap_example =
    ummap-mmap hundred 12288 hundred-IsValid hundred-HasRoom (omega arith) three_pages.1

-- User 1 maps three pages, user 2 two, and user 1 gives back what it has.
two_users : (t : Mappings) × Reach (unmapped hundred) t
unfolding mmap ummap Bitmap.init is_zero is_full clz and or popcount complement shl_by
two_users = (
  _,
  next
      (next (next here (map _ 1 12288 refl (omega arith) refl))
        (map _ 2 8192 refl (omega arith) refl))
      (unmap _ 1 refl refl),
)

mappings_apart_example :
    ((h a s : ℕ)
      → (two_users.0).live h ≡ some (a, s)
      → Region (two_users.0).pages a s × ((q : Pages) × (ummap (two_users.0).pages a s ≡ ok q)))
    × ((h k a s c r : ℕ)
        → h ≢ k
        → (two_users.0).live h ≡ some (a, s)
        → (two_users.0).live k ≡ some (c, r)
        → (a + s ≤ c) ⊎ (c + r ≤ a))
mappings_apart_example = mappings_apart hundred hundred-IsValid hundred-HasRoom two_users.1
