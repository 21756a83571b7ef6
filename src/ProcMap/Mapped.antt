-- ===== src/ProcMap/Mapped.antt =====
-- `arax_pipe_have_to_mmap` of src/core/arax_pipe.c.
use arax_g_rpc.Prelude.{
  ℕ, ◌+◌, ◌≡◌, ◌≢◌, ◌<◌, ◌≤◌, refl, ap, ◌∙◌, Bool, true, false, not, ◌&&◌, Bool-cases, inl, inr,
  List, [], ◌∷◌, length, ◌==◌, if◌then◌else◌, arith,
}
use arax_g_rpc.Prelude.Outcome.{Outcome, ok, ◌>>=◌}
use arax_g_rpc.ProcMap.{Pipe, claim_cell, have_to_mmap}

-- How often a number stands in the map.
unfoldable pub count : ℕ → List ℕ → ℕ
count p [] = 0
count p (x ∷ xs) = (if x == p then 1 else 0) + count p xs

claim_cell-told :
    (pid : ℕ) (xs : List ℕ) → pid ≢ 0 → (claim_cell pid xs).1 ≡ false → 0 < count pid xs
unfolding claim_cell count
claim_cell-told pid [] nz h = cc
claim_cell-told pid (x ∷ xs) nz h = ground (arith, claim_cell-told pid xs nz)

-- The unused cells stand behind the used ones, as long as no cell in the middle is given up.
unfoldable pub packed : List ℕ → Bool
unfolding count
packed [] = true
packed (x ∷ xs) = if x == 0 then count 0 xs == length xs else packed xs

count_le : (p : ℕ) (xs : List ℕ) → count p xs ≤ length xs
unfolding count
count_le p [] = omega arith
count_le p (x ∷ xs) = ground (arith, count_le p xs)

-- Where every cell is unused no process has one.
unused-count : (q : ℕ) (xs : List ℕ) → q ≢ 0 → count 0 xs ≡ length xs → count q xs ≡ 0
unfolding count
unused-count q [] nz h = refl
unused-count q (x ∷ xs) nz h = elim (Bool-cases (x == 0)) [
  | inl e ↦ ground (arith, e, nz, h, unused-count q xs nz)
  | inr e ↦ absurd (ground (arith, e, h, count_le 0 xs))
]

unused-packed : (xs : List ℕ) → count 0 xs ≡ length xs → packed xs ≡ true
unfolding count packed
unused-packed [] h = refl
unused-packed (x ∷ xs) h = ground (arith, h, count_le 0 xs, unused-packed xs)

-- What the loop leaves: the answer, the counts, and a packed map.
record Claimed (pid : ℕ) (xs ys : List ℕ) (told : Bool) : Type 0 where
  asked : told ≡ (count pid xs == 0)
  counts :
      (q : ℕ)
      → q ≢ 0
      → count q ys ≡ count q xs + (if (q == pid) && (count pid xs == 0) then 1 else 0)
  unused : count 0 xs ≤ count 0 ys + 1
  stays_packed : packed ys ≡ true

claim_cell-Claimed :
    (pid : ℕ) (xs : List ℕ)
    → pid ≢ 0
    → packed xs ≡ true
    → 0 < count 0 xs + count pid xs
    → Claimed pid xs (claim_cell pid xs).0 (claim_cell pid xs).1
unfolding claim_cell count packed
claim_cell-Claimed pid [] nz p h = absurd (omega arith)
claim_cell-Claimed pid (x ∷ xs) nz p h = elim (Bool-cases (x == pid)) [
  | inl e ↦ record {
    asked = ground (arith, e);
    counts = λ q n. ground (arith, e);
    unused = ground (arith, e);
    stays_packed = ground (arith, e, p);
  }
  | inr e ↦ elim (Bool-cases (x == 0)) [
    | inl z ↦
        let none_there : count pid xs ≡ 0 = unused-count pid xs nz (ground (arith, z, p)) in
        record {
          asked = ground (arith, e, z, none_there);
          counts = λ q n. ground (arith, e, z, nz, n, none_there);
          unused = ground (arith, e, z, nz);
          stays_packed = ground (arith, e, z, nz, unused-packed xs (ground (arith, z, p)));
        }
    | inr z ↦
        let rest = claim_cell-Claimed pid xs nz (ground (arith, z, p)) (ground (arith, e, z, h)) in
        record {
          asked = ground (arith, e, z, rest.asked);
          counts = λ q n. ground (arith, e, z, rest.counts q n);
          unused = ground (arith, e, z, rest.unused);
          stays_packed = ground (arith, e, z, rest.stays_packed);
        }
  ]
]

-- A process that is told that it is mapped already stands in the map.
pub have_to_mmap-mapped :
    (pipe : Pipe) (pid : ℕ) {pipe' : Pipe}
    → have_to_mmap pipe pid ≡ ok (pipe', false)
    → 0 < count pid pipe.proc_map
unfolding have_to_mmap
have_to_mmap-mapped pipe pid h = ground (arith, claim_cell-told pid pipe.proc_map)

-- The calls of several processes, one after the other, and the answers.
unfoldable pub ask_all : Pipe → List ℕ → Outcome (Pipe × List Bool)
unfolding have_to_mmap
ask_all pipe [] = ok (pipe, [])
ask_all pipe (p ∷ ps) = do r ← have_to_mmap pipe p; rest ← ask_all r.0 ps; ok (rest.0, r.1 ∷ rest.1)

-- How many of its calls told the process to map the segment.
unfoldable pub told : ℕ → List ℕ → List Bool → ℕ
told q (p ∷ ps) (b ∷ bs) = (if (p == q) && b then 1 else 0) + told q ps bs
told q _ _ = 0

-- One where the process calls and is not in the map, else none.
abbrev pub is_new : ℕ → Pipe → List ℕ → ℕ
is_new q pipe ps = if (count q pipe.proc_map == 0) && not (count q ps == 0) then 1 else 0

-- On a map whose unused cells stand behind the used ones, with an unused cell for each of a sequence of
-- calls, made by any processes in any order, none with the number 0: every call returns; a process that is not in the map yet is told to map the segment exactly
-- once, one that is in the map never; and the map afterwards has, besides what it had, one cell for
-- each of the new processes.
pub ask_all_lem :
    (pipe : Pipe) (ps : List ℕ)
    → packed pipe.proc_map ≡ true
    → count 0 ps ≡ 0
    → length ps ≤ count 0 pipe.proc_map
    → (r : Pipe × List Bool) × (ask_all pipe ps ≡ ok r)
      × ((q : ℕ)
          → q ≢ 0
          → (told q ps r.1 ≡ is_new q pipe ps)
            × (count q (r.0).proc_map ≡ count q pipe.proc_map + is_new q pipe ps))
unfolding ask_all told have_to_mmap count
ask_all_lem pipe [] p nz room = ((pipe, []), refl, λ q n. (ground arith, ground arith))
ask_all_lem pipe (pid ∷ ps) p nz room =
    let there : pid ≢ 0 = λ e. ground (arith, e, nz) in
    let first = claim_cell-Claimed pid pipe.proc_map there p (omega (arith, room)) in
    let next : Pipe = record pipe { proc_map = (claim_cell pid pipe.proc_map).0 } in
    let (r, e, f) =
      ask_all_lem next ps first.stays_packed (ground (arith, nz))
        (omega (arith, room, first.unused)) in
    (
      (r.0, (claim_cell pid pipe.proc_map).1 ∷ r.1),
      ground (arith, there, e),
      λ q n.
          let (t, c) = f q n in
          let now = first.counts q n in
          elim (Bool-cases (pid == q)) [
            | inl y ↦
                let same : pid ≡ q = ground (arith, y) in
                let asked : (claim_cell pid pipe.proc_map).1 ≡ (count q pipe.proc_map == 0) =
                  first.asked ∙ ap (λ x. count x pipe.proc_map == 0) same in
                elim (Bool-cases (count q pipe.proc_map == 0)) [
                  | inl z ↦ (
                    ground (arith, y, same, asked, z, t, c, now),
                    ground (arith, y, same, asked, z, t, c, now),
                  )
                  | inr z ↦ (
                    ground (arith, y, same, asked, z, t, c, now),
                    ground (arith, y, same, asked, z, t, c, now),
                  )
                ]
            | inr y ↦ (ground (arith, y, t, c, now), ground (arith, y, t, c, now))
          ],
    )
