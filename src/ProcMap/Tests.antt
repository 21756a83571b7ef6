-- ===== src/ProcMap/Tests.antt =====
-- The process map of src/core/arax_pipe.c at concrete inputs.
use arax_g_rpc.Prelude.{
  ℕ, ◌+◌, ◌≡◌, ◌≢◌, refl, Bool, true, false, List, [], ◌∷◌, ◌++◌, replicate, arith,
}
use arax_g_rpc.Prelude.Outcome.{ok}
use arax_g_rpc.ProcMap.{Pipe, mark_unmap}
use arax_g_rpc.ProcMap.Mapped.{count, packed, ask_all, told, is_new, ask_all_lem}
use arax_g_rpc.ProcMap.Unmap.{mark_unmap-removes}

abbrev sparse : Pipe
sparse = record { self = 0; processes = 2; proc_map = 31 ∷ 17 ∷ 23 ∷ replicate 16 0 }

mark_unmap-removes_example :
    mark_unmap sparse 17
    ≡ ok (record sparse { proc_map = (31 ∷ []) ++ ((23 ∷ []) ++ replicate 17 0) })
unfolding count
mark_unmap-removes_example =
    mark_unmap-removes sparse (31 ∷ []) (23 ∷ []) 17 15 (λ e. omega (arith, e)) refl refl
      (omega arith)

ask_all_lem_example :
    (r : Pipe × List Bool) × (ask_all sparse (5 ∷ 31 ∷ 5 ∷ []) ≡ ok r)
    × ((q : ℕ)
        → q ≢ 0
        → (told q (5 ∷ 31 ∷ 5 ∷ []) r.1 ≡ is_new q sparse (5 ∷ 31 ∷ 5 ∷ []))
          × (count q (r.0).proc_map ≡ count q sparse.proc_map + is_new q sparse (5 ∷ 31 ∷ 5 ∷ [])))
unfolding count packed
ask_all_lem_example = ask_all_lem sparse (5 ∷ 31 ∷ 5 ∷ []) refl refl (omega arith)

-- The first call of 5 is told to map the segment, the others are not.
ask_test :
    ask_all sparse (5 ∷ 31 ∷ 5 ∷ [])
    ≡ ok (
      (record sparse { proc_map = 31 ∷ 17 ∷ 23 ∷ 5 ∷ replicate 15 0 }),
      true ∷ false ∷ false ∷ [],
    )
unfolding ask_all
ask_test = refl

-- Four processes on a map of sixteen cells: one byte too few is moved for the last to follow.
abbrev crowded : Pipe
crowded = record { self = 0; processes = 4; proc_map = 31 ∷ 17 ∷ 23 ∷ 29 ∷ replicate 12 0 }

crowded_test :
    mark_unmap crowded 31 ≡ ok (record crowded { proc_map = 17 ∷ 23 ∷ 23 ∷ 29 ∷ replicate 12 0 })
unfolding mark_unmap
crowded_test = refl
