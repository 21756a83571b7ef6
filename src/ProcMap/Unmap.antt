-- ===== src/ProcMap/Unmap.antt =====
-- `arax_pipe_mark_unmap` of src/core/arax_pipe.c, whose memmove is told ARAX_PROC_MAP_SIZE - (c + 1)
-- bytes and not cells.
use mathlib.Core.List.{append_assoc}
use arax_g_rpc.Prelude.{
  ℕ, zero, suc, ◌+◌, ◌-◌, ◌/◌, ◌≡◌, ◌≢◌, ◌<◌, refl, sym, ap, subst, ◌∙◌, List, [], ◌∷◌, ◌++◌,
  length, length-append, length-replicate, set, replicate, arith,
}
use arax_g_rpc.Prelude.Outcome.{ok}
use arax_g_rpc.ProcMap.{Pipe, mark_unmap, index_of, move_bytes, move_at}
use arax_g_rpc.ProcMap.Mapped.{count}

index_of-first :
    (pid : ℕ) (before after : List ℕ)
    → count pid before ≡ 0
    → index_of pid (before ++ (pid ∷ after)) ≡ length before
unfolding index_of count
index_of-first pid [] after h = ground arith
index_of-first pid (x ∷ xs) after h = ground (arith, index_of-first pid xs after)

move_bytes-zeros : (n z : ℕ) → move_bytes n (replicate z 0) ≡ replicate z 0
unfolding move_bytes
move_bytes-zeros n zero = refl
move_bytes-zeros n (suc zero) = refl
move_bytes-zeros n (suc (suc z)) = ground (arith, move_bytes-zeros (n - 8) (suc z))

-- Whole cells are moved as long as the used ones end before the bytes do.
move_bytes-used :
    (n x z : ℕ) (used : List ℕ)
    → length used < n / 8
    → move_bytes n (x ∷ (used ++ replicate (suc z) 0)) ≡ used ++ replicate (suc (suc z)) 0
unfolding move_bytes
move_bytes-used n x z [] h = ground (arith, move_bytes-zeros (n - 8) (suc z))
move_bytes-used n x z (y ∷ ys) h = ground (arith, move_bytes-used (n - 8) y z ys)

move_at-append :
    (before after : List ℕ) (n : ℕ)
    → move_at (length before) n (before ++ after) ≡ before ++ move_bytes n after
unfolding move_at
move_at-append [] after n = refl
move_at-append (x ∷ xs) after n = ap (λ ys. x ∷ ys) (move_at-append xs after n)

set-last :
    (xs : List ℕ) (z i : ℕ)
    → i ≡ length xs + z
    → set (xs ++ replicate (suc z) 0) i 0 ≡ xs ++ replicate (suc z) 0
set-last [] zero zero h = refl
set-last [] zero (suc i) h = absurd (omega arith)
set-last [] (suc z) zero h = absurd (omega arith)
set-last [] (suc z) (suc i) h = ap (λ ys. 0 ∷ ys) (set-last [] z i (omega arith))
set-last (x ∷ xs) z zero h = absurd (omega arith)
set-last (x ∷ xs) z (suc i) h = ap (λ ys. x ∷ ys) (set-last xs z i (omega arith))

-- The map without the cell, and a zero at its end.
move_at-removes :
    (before used : List ℕ) (pid z n i : ℕ)
    → length used < n / 8
    → i ≡ length (before ++ used) + suc z
    → set (move_at (length before) n (before ++ (pid ∷ (used ++ replicate (suc z) 0)))) i 0
      ≡ before ++ (used ++ replicate (suc (suc z)) 0)
move_at-removes before used pid z n i h at =
    ap (λ ys. set ys i 0)
      (move_at-append before _ n
        ∙ ap (λ ys. before ++ ys) (move_bytes-used n pid z used h)
        ∙ sym (append_assoc before used _))
    ∙ set-last (before ++ used) (suc z) i at
    ∙ append_assoc before used _

cells-length :
    (before used : List ℕ) (pid z : ℕ)
    → length (before ++ (pid ∷ (used ++ replicate (suc z) 0)))
      ≡ suc (length (before ++ used) + suc z)
cells-length [] used pid z =
    omega (arith, length-append used (replicate (suc z) 0), length-replicate {A = ℕ} z 0)
cells-length (x ∷ xs) used pid z = omega (arith, cells-length xs used pid z)

few_enough :
    (before used : List ℕ) (n z : ℕ)
    → n ≡ suc (length (before ++ used) + suc z)
    → length used < (length used + suc z) / 8
    → length used < (n - (length before + 1)) / 8
few_enough before used n z e h =
    subst (λ m. length used < m / 8) (omega (arith, length-append before used)) h

-- Where the cells in use behind that of a process are fewer than an eighth of those there are, its cell
-- is taken out of the map, the others keep their order, and an unused cell is added at the end.
pub mark_unmap-removes :
    (pipe : Pipe) (before used : List ℕ) (pid z : ℕ)
    → pid ≢ 0
    → count pid before ≡ 0
    → pipe.proc_map ≡ before ++ (pid ∷ (used ++ replicate (suc z) 0))
    → length used < (length used + suc z) / 8
    → mark_unmap pipe pid
      ≡ ok (record pipe { proc_map = before ++ (used ++ replicate (suc (suc z)) 0) })
unfolding mark_unmap
mark_unmap-removes pipe before used pid z nz first is few =
    let cells = ap length is ∙ cells-length before used pid z in
    let at = ap (index_of pid) is ∙ index_of-first pid before _ first in
    let split = length-append before used in
    ground (
      arith,
      cells,
      at,
      is,
      split,
      move_at-removes before used pid z (length pipe.proc_map - (length before + 1))
          (length pipe.proc_map - 1) (few_enough before used _ z cells few) (omega (arith, cells)),
    )
