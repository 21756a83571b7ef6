-- ===== src/ProcMap.antt =====
-- src/core/arax_pipe.c: the processes that use a segment. The number of cells, ARAX_PROC_MAP_SIZE, is
-- the length of `proc_map`; a cell is a `uint64_t`, stored with its low byte first. `proc_lock` is held
-- for the whole of each call.
pub mod Tests
pub mod Mapped
pub mod Unmap
use arax_g_rpc.Prelude.{
  ℕ, zero, suc, ◌+◌, ◌-◌, ◌*◌, ◌/◌, ◌%◌, ◌^◌, Bool, true, false, not, List, [], ◌∷◌, ltb, ◌==◌,
  if◌then◌else◌, length, set,
}
use arax_g_rpc.Prelude.Outcome.{Outcome, ok, ◌>>=◌, ◌>>◌, arax_assert}

-- The fields of `arax_pipe_s` that the calls below use.
pub record Pipe : Type 0 where
  pub self : ℕ
  pub processes : ℕ
  pub proc_map : List ℕ

-- The count before, as `__sync_fetch_and_add` returns it.
unfoldable pub add_process : Pipe → Pipe × ℕ
add_process pipe = (record pipe { processes = (pipe.processes + 1) % 2 ^ 64 }, pipe.processes)

unfoldable pub del_process : Pipe → Pipe × ℕ
del_process pipe =
    (record pipe { processes = (pipe.processes + 2 ^ 64 - 1) % 2 ^ 64 }, pipe.processes)

-- The loop of `arax_pipe_have_to_mmap`: the first unused cell takes the process.
unfoldable pub claim_cell : ℕ → List ℕ → List ℕ × Bool
claim_cell pid [] = ([], true)
claim_cell pid (x ∷ xs) =
    let rest = claim_cell pid xs in
    if x == pid then (x ∷ xs, false) else if x == 0 then (pid ∷ xs, true) else (x ∷ rest.0, rest.1)

unfoldable pub have_to_mmap : Pipe → ℕ → Outcome (Pipe × Bool)
unfolding claim_cell
have_to_mmap pipe pid = do
  arax_assert (not (pid == 0))
  let r = claim_cell pid pipe.proc_map
  ok (record pipe { proc_map = r.0 }, r.1)

-- The first cell that holds the process, or the number of cells.
unfoldable pub index_of : ℕ → List ℕ → ℕ
index_of pid [] = 0
index_of pid (x ∷ xs) = let rest = index_of pid xs in if x == pid then 0 else suc rest

-- The low `r` bytes of `y` over those of `x`.
abbrev pub low_bytes : ℕ → ℕ → ℕ → ℕ
low_bytes r y x = y % 256 ^ r + x / 256 ^ r * 256 ^ r

-- `memmove(cells, cells + 1, n)` with `n` a number of bytes
unfoldable pub move_bytes : ℕ → List ℕ → List ℕ
move_bytes n [] = []
move_bytes n (x ∷ []) = x ∷ []
move_bytes n (x ∷ y ∷ xs) =
    let rest = move_bytes (n - 8) (y ∷ xs) in if ltb n 8 then low_bytes n y x ∷ y ∷ xs else y ∷ rest

unfoldable pub move_at : ℕ → ℕ → List ℕ → List ℕ
unfolding move_bytes
move_at zero n xs = move_bytes n xs
move_at (suc c) n [] = []
move_at (suc c) n (x ∷ xs) = x ∷ move_at c n xs

unfoldable pub mark_unmap : Pipe → ℕ → Outcome Pipe
unfolding index_of move_at
mark_unmap pipe pid = do
  arax_assert (not (pid == 0))
  let cells = length pipe.proc_map
  let c = index_of pid pipe.proc_map
  arax_assert (ltb c cells)
  ok (record pipe { proc_map = set (move_at c (cells - (c + 1)) pipe.proc_map) (cells - 1) 0 })

-- The compare-and-swap of `self`: the first caller's address, `here`, is that of all.
unfoldable pub mmap_address : Pipe → ℕ → Pipe × ℕ
mmap_address pipe here =
    if pipe.self == 0 then (record pipe { self = here }, here) else (pipe, pipe.self)
