-- ===== src/Pages.antt =====
-- src/alloc/dlmalloc/alloc.c: the pages behind the allocator of a segment, handed out by `arax_mmap`.
-- A page has 4096 bytes. `header` is sizeof(struct arch_alloc_inner_s), behind which the chunks of the
-- bitmap begin. The dlmalloc space itself, which takes its pages from here, is third-party code.
pub mod Layout
pub mod Live
pub mod Undo
pub mod Tests
use arax_g_rpc.Prelude.{ℕ, ◌+◌, ◌-◌, ◌*◌, ◌/◌, ◌%◌, Option, none, some, ◌==◌}
use arax_g_rpc.Prelude.Outcome.{Outcome, ok, abort, ◌>>=◌, ◌>>◌, arax_assert}
use arax_g_rpc.Bitmap
use arax_g_rpc.Bitmap.{Bitmap, u64, alloc_bits, free_bits}

abbrev pub page : ℕ
page = 4096

-- BITS_PER_PAGE
abbrev pub bits_per_page : ℕ
bits_per_page = 32768

-- `arch_alloc_inner_s`
pub record Pages : Type 0 where
  pub start : ℕ
  pub bmp : Bitmap

-- `(x + BIT_ALLOCATOR_BLOCK_MASK) & ~BIT_ALLOCATOR_BLOCK_MASK`
abbrev pub align_up : ℕ → ℕ
align_up x = (x + 4095) % u64 / page * page

abbrev pub aligned_pages : ℕ → ℕ → ℕ → ℕ
aligned_pages header alloc size =
    (size + u64 - (align_up ((alloc + header) % u64) + u64 - alloc) % u64) % u64 / page

abbrev pub bitmap_pages : ℕ → ℕ
bitmap_pages n = (n + (bits_per_page - 1)) % u64 / bits_per_page

unfoldable pub init_once : ℕ → ℕ → ℕ → Pages
init_once header alloc size =
    let n = aligned_pages header alloc size in
    record {
      start = (align_up ((alloc + header) % u64) + page * bitmap_pages n) % u64;
      bmp = Bitmap.init ((n + u64 - bitmap_pages n) % u64);
    }

-- The address of the pages found, after the assertion that there were so many in a row.
unfoldable pub mapped_at : Pages → Bitmap × Option ℕ → Outcome (Pages × ℕ)
mapped_at alloc (b, none) = abort
mapped_at alloc (b, some off) =
    ok (record alloc { bmp = b }, (alloc.start + off * page % u64) % u64)

unfoldable pub mmap : Pages → ℕ → Outcome (Pages × ℕ)
unfolding alloc_bits mapped_at
mmap alloc s = do arax_assert (s % page == 0); mapped_at alloc (alloc_bits alloc.bmp (s / page))

unfoldable pub ummap : Pages → ℕ → ℕ → Outcome Pages
unfolding free_bits
ummap alloc a s = do
  b ← free_bits alloc.bmp ((a + u64 - alloc.start) % u64 / page) (s / page)
  ok (record alloc { bmp = b })
