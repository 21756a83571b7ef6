-- ===== src/Pages/Layout.antt =====
-- Where `arch_alloc_init_once` of src/alloc/dlmalloc/alloc.c puts the bitmap and the pages.
use arax_g_rpc.Prelude.{
  ℕ, ◌+◌, ◌-◌, ◌*◌, ◌/◌, ◌%◌, ◌^◌, ◌≤◌, ◌<◌, ◌≡◌, ◌∙◌, length, length-replicate, replicate, arith,
}
use arax_g_rpc.Bitmap
use arax_g_rpc.Bitmap.{u64}
use arax_g_rpc.Bitmap.Words.{zeros}
use arax_g_rpc.Pages.{page, align_up, aligned_pages, bitmap_pages, init_once}

-- In a segment that ends below 2 ^ 63 and has room for the header, one page for padding and two
-- pages more: the pages begin at a multiple of 4096, behind the chunks of the bitmap, which begin behind the
-- header; there is a bit for each page; and the last page ends within the segment.
pub init_once-fits :
    (header alloc size : ℕ)
    → alloc + size < 2 ^ 63
    → header + 3 * page ≤ size
    → let p = init_once header alloc size in
      (p.start % page ≡ 0)
      × (alloc + header + length (p.bmp).chunks * 8 ≤ p.start)
      × ((p.bmp).size_bits ≤ length (p.bmp).chunks * 64)
      × (p.start + (p.bmp).size_bits * page ≤ alloc + size)
unfolding init_once Bitmap.init
init_once-fits header alloc size end room =
    let base = alloc + header in
    let n = aligned_pages header alloc size in
    let k = bitmap_pages n in
    let up = align_up (base % u64) in
    let up_is : up ≡ (base + 4095) / 4096 * 4096 = omega (arith, end, room) in
    let n_is : n ≡ (size - (up - alloc)) / 4096 = omega (arith, end, room, up_is) in
    let small : n < 2 ^ 51 = omega (arith, end, n_is) in
    let k_is : k ≡ (n + 32767) / 32768 = omega (arith, small) in
    let some_page : 0 < n = omega (arith, end, room, up_is, n_is) in
    let start_is : (up + page * k) % u64 ≡ up + 4096 * k =
      omega (arith, end, up_is, n_is, k_is, small) in
    let pages_is : (n + u64 - k) % u64 ≡ n - k = omega (arith, k_is, some_page, small) in
    let chunks_is : length (replicate (((n + u64 - k) % u64 + 63) % u64 / 64) zeros)
        ≡ (n - k + 63) / 64 =
      length-replicate (((n + u64 - k) % u64 + 63) % u64 / 64) zeros
      ∙ omega (arith, pages_is, small) in
    (
      omega (arith, start_is, up_is),
      omega (arith, start_is, chunks_is, k_is, up_is),
      omega (arith, pages_is, chunks_is),
      omega (arith, start_is, pages_is, n_is, k_is, up_is, some_page, end, room),
    )
