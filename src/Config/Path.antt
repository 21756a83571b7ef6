-- ===== src/Config/Path.antt =====
-- `utils_config_alloc_path` of src/utils/config.c: `~` in a path stands for the home directory.
use arax_g_rpc.Prelude.{
  ℕ, ◌+◌, ◌-◌, ◌%◌, ◌^◌, ◌<◌, ◌≤◌, ◌≡◌, ◌⊎◌, inl, inr, refl, ap, subst, Bool, true, false, [], ◌∷◌,
  ◌++◌, Option, none, some, ltb, leb, ◌==◌, if◌then◌else◌, length, length-append, Bool-cases,
  dec_lt, arith,
}
use arax_g_rpc.Prelude.Outcome.{Outcome, ok, abort, fault, ◌>>=◌, ◌>>◌, arax_assert}
use arax_g_rpc.Config.Text.{Str}

-- What is left of the `temp` buffer after the home directory, a `size_t`.
abbrev pub after_home : Str → ℕ → ℕ
after_home home size = (size + 2 ^ 64 - length home) % 2 ^ 64

abbrev pub prepend : Str → Outcome (Option Str) → Outcome (Option Str)
prepend s m = do r ← m; elim r [ none ↦ ok none | some t ↦ ok (some (s ++ t)) ]

-- `strncat(tp, home, size)`, and the rest of the loop: the NUL that it appends lies behind the buffer
-- where the home directory takes all that is left of it.
abbrev pub append_home : Str → ℕ → Outcome (Option Str) → Outcome (Option Str)
append_home home size m = if ltb (length home) size then prepend home m else fault

-- The loop with `size` bytes of the buffer left, the closing NUL of the path included: none for NULL.
unfoldable pub expand : Str → ℕ → Str → Outcome (Option Str)
expand home size [] = if size == 0 then ok none else ok (some [])
expand home size (c ∷ path) =
    let there = expand home (after_home home size) path in
    let here = expand home (size - 1) path in
    if size == 0
    then ok none
    else if c == b'~'
    then (do arax_assert (leb (after_home home size) 4096); append_home home size there)
    else prepend (c ∷ []) here

unfoldable pub alloc_path : Str → Option Str → Outcome (Option Str)
unfolding expand
alloc_path home none = ok none
alloc_path home (some path) = expand home 4096 path

-- The path with the home directory for each `~`.
abbrev pub expanded : Str → Str → Str
expanded home [] = []
expanded home (c ∷ path) =
    let rest = expanded home path in if c == b'~' then home ++ rest else c ∷ rest

-- A home directory has to go where exactly its length is left of a buffer of `size` bytes.
abbrev pub fills : Str → ℕ → Str → Bool
fills home size [] = false
fills home size (c ∷ path) =
    let there = fills home (size - length home) path in
    let here = fills home (size - 1) path in
    if size == 0
    then false
    else if c == b'~'
    then (if length home == size then true else if ltb (length home) size then there else false)
    else here

-- What a path becomes in a buffer of so many bytes.
abbrev pub Expands : Str → ℕ → Str → Outcome (Option Str) → Type 0
Expands home size path m =
    (length (expanded home path) < size → m ≡ ok (some (expanded home path)))
    × (size ≤ length (expanded home path)
        → (fills home size path ≡ true) × (m ≡ fault)
          ⊎ (fills home size path ≡ false) × ((m ≡ ok none) ⊎ (m ≡ abort)))

-- The same for a path `t` of which it is known whether a home directory fills the buffer.
abbrev Ends : Bool → Str → ℕ → Outcome (Option Str) → Type 0
Ends full t size m =
    (length t < size → m ≡ ok (some t))
    × (size ≤ length t
        → (full ≡ true) × (m ≡ fault) ⊎ (full ≡ false) × ((m ≡ ok none) ⊎ (m ≡ abort)))

prepend-Ends :
    (full : Bool) (s t : Str) (size : ℕ) (m : Outcome (Option Str))
    → Ends full t size m
    → Ends full (s ++ t) (size + length s) (prepend s m)
prepend-Ends full s t size m h = (
  λ a. ap (prepend s) (h.0 (omega (arith, a, length-append s t))),
  λ a. elim (h.1 (omega (arith, a, length-append s t))) [
    | inl (f, e) ↦ inl (f, ap (prepend s) e)
    | inr (f, inl e) ↦ inr (f, inl (ap (prepend s) e))
    | inr (f, inr e) ↦ inr (f, inr (ap (prepend s) e))
  ],
)

-- The home directory, which has to fit into what is left of the buffer.
home-Ends :
    (home : Str) (size : ℕ) (path : Str) (m : Outcome (Option Str))
    → length home < 2 ^ 63
    → size ≤ 4096
    → (length home < size → Expands home (after_home home size) path m)
    → Ends
        (if length home == size
          then true
          else if ltb (length home) size
          then fills home (size - length home) path
          else false)
        (home ++ expanded home path)
        size
        (do arax_assert (leb (after_home home size) 4096); append_home home size m)
home-Ends home size path m h s r = elim (dec_lt size (length home)) [
  | yes p ↦
      let no_room : leb (after_home home size) 4096 ≡ false = ground (arith, p, h, s) in
      (
        λ a. absurd (omega (arith, a, p, length-append home (expanded home path))),
        λ a. inr (ground (arith, p), inr (rw no_room refl)),
      )
  | no p ↦
      let room : leb (after_home home size) 4096 ≡ true = ground (arith, p, h, s) in
      elim (dec_lt (length home) size) [
        | no q ↦ (
          λ a. absurd (omega (arith, a, q, length-append home (expanded home path))),
          λ a. inl (ground (arith, p, q), rw room (ground (arith, q))),
        )
        | yes q ↦
            let left : after_home home size ≡ size - length home = omega (arith, p, h, s) in
            let whole : size - length home + length home ≡ size = omega (arith, q) in
            let e =
              prepend-Ends (fills home (size - length home) path) home (expanded home path)
                (size - length home) m (subst (λ n. Expands home n path m) left (r q)) in
            let fits : ltb (length home) size ≡ true = ground (arith, q) in
            let other : (length home == size) ≡ false = ground (arith, q) in
            rw (room, fits, other)
              (subst
                (λ n.
                  Ends (fills home (size - length home) path) (home ++ expanded home path) n
                    (prepend home m))
                whole e)
      ]
]

expand-Expands :
    (home : Str) (size : ℕ) (path : Str)
    → length home < 2 ^ 63
    → size ≤ 4096
    → Expands home size path (expand home size path)
unfolding expand
expand-Expands home size [] h s = (λ a. ground (arith, a), λ a. inr (refl, inl (ground (arith, a))))
expand-Expands home size (c ∷ path) h s = elim (Bool-cases (size == 0)) [
  | inl z ↦ rw z (λ a. absurd (ground (arith, a, z)), λ a. inr (refl, inl refl))
  | inr z ↦ elim (Bool-cases (c == b'~')) [
    | inl q ↦
        rw (z, q)
          (home-Ends home size path (expand home (after_home home size) path) h s
            λ le. expand-Expands home (after_home home size) path h (omega (arith, s, le, h)))
    | inr q ↦
        let e =
          prepend-Ends (fills home (size - 1) path) (c ∷ []) (expanded home path) (size - 1)
            (expand home (size - 1) path)
            (expand-Expands home (size - 1) path h (omega (arith, s))) in
        let same : size - 1 + length (c ∷ []) ≡ size = ground (arith, z) in
        rw (z, q) (λ a. e.0 (omega (arith, a, same)), λ a. e.1 (omega (arith, a, same)))
  ]
]

-- With the name of a home directory of fewer than 2 ^ 63 bytes, a path is returned with that name for
-- each `~` exactly where the result takes fewer than 4096 bytes. For a longer result the call returns
-- NULL or its assertion fails, unless the name is to go where it fills exactly what is left of the
-- buffer: then a byte is written behind the buffer.
pub alloc_path_lem :
    (home path : Str) → length home < 2 ^ 63 → Expands home 4096 path (alloc_path home (some path))
unfolding alloc_path
alloc_path_lem home path h = expand-Expands home 4096 path h (omega arith)
