-- ===== src/Core/Listing/Restored.antt =====
-- `arax_accel_list` and `arax_accel_list_free` of src/arch/shm/impl.c: an array and its references.
use arax_g_rpc.Prelude.{
  ℕ, suc, ◌+◌, ◌-◌, ◌≡◌, refl, ◌∙◌, ap, Bool, true, false, ◌||◌, List, [], ◌∷◌, some, Bool-cases,
  inl, inr, ◌==◌, length, arith,
}
use arax_g_rpc.Prelude.Outcome.{ok, fault}
use arax_g_rpc.Core.World.{Ptr, Object, Cell, World, Platform, pure, ◌>>=◌, ◌>>◌}
use arax_g_rpc.Core.World.Memory.{find, replace, has}
use arax_g_rpc.Core.Object.{ref_inc}
use arax_g_rpc.Core.Object.Counts.{ref_inc-ok, ref_dec-shared}
use arax_g_rpc.Core.Release.{ref_dec, dtor}
use arax_g_rpc.Core.Listing.Refs.{
  add_ref, add_refs, replace-add_ref, replace-drop_ref, drop_ref-add_ref, find-add_ref,
  find-add_refs_other, drop_ref-add_refs,
}
use arax_g_rpc.Core.Listing.{collect, drop_each, listed, list, list_free, list_free_pre_locked}
use arax_g_rpc.Core.Listing.Fits.{
  has_type, matches, all_fit, of_type, all_fit-add_ref, of_type-add_ref, all_fit-of_type,
  fits-Fitting, type_at_lem,
}

-- The loop over a list of accelerators that fit.
collect_lem :
    (physical : Bool) (type : ℕ) (ps : List Ptr) (w : World)
    → all_fit physical w.cells ps ≡ true
    → let found = of_type physical type w.cells ps in
      collect physical true type ps w
      ≡ ok ((length found, found), record w { cells = add_refs found w.cells })
unfolding collect all_fit of_type add_refs matches has_type ◌>>=◌
collect_lem physical type [] w h = refl
collect_lem physical type (p ∷ ps) w h =
    let f = fits-Fitting physical w.cells p (ground (arith, h)) in
    let typed = type_at_lem physical w p f.object f.type f.found f.is in
    elim (Bool-cases (type == 0 || f.type == type)) [
      | inl y ↦
          let more : World = record w { cells = add_ref p w.cells } in
          let inc : ref_inc p w ≡ ok (tt, more) =
            ref_inc-ok (λ t q v. fault) w f.object p f.found f.not_null f.valid
              (omega (arith, f.small))
            ∙ ap (λ cs. ok (tt, record w { cells = cs }))
                (replace-add_ref p f.object w.cells f.found) in
          let alone : has p ps ≡ false = ground (arith, h) in
          let rest =
            collect_lem physical type ps more
              (all_fit-add_ref physical p ps w.cells alone ∙ ground (arith, h)) in
          let same = of_type-add_ref physical type p ps w.cells alone in
          ground (arith, h, f.found, f.is, y, typed, inc, rest, same)
      | inr n ↦
          let rest = collect_lem physical type ps w (ground (arith, h)) in
          ground (arith, h, f.found, f.is, n, typed, rest)
    ]

module _ (env : Platform) (fuel : ℕ) (physical : Bool) where
  drop_each_lem :
      (ps : List Ptr) (w : World)
      → all_fit physical w.cells ps ≡ true
      → drop_each (ref_dec env (suc fuel)) ps (record w { cells = add_refs ps w.cells })
        ≡ ok (tt, w)
  unfolding drop_each all_fit add_refs ref_dec ◌>>=◌
  drop_each_lem [] w h = refl
  drop_each_lem (p ∷ ps) w h =
      let f = fits-Fitting physical w.cells p (ground (arith, h)) in
      let alone : has p ps ≡ false = ground (arith, h) in
      let o : Object = f.object in
      let one : Object = record o { ref_count = o.ref_count + 1 } in
      let cs : List Cell = add_refs ps (add_ref p w.cells) in
      let live : find p cs ≡ some one =
        find-add_refs_other p ps (add_ref p w.cells) alone ∙ find-add_ref p o w.cells f.found in
      let left : replace p (record one { ref_count = one.ref_count - 1 }) cs ≡ add_refs ps w.cells =
        replace-drop_ref p one cs live
        ∙ drop_ref-add_refs p ps (add_ref p w.cells) alone
        ∙ ap (add_refs ps) (drop_ref-add_ref p w.cells) in
      let dec =
        ref_dec-shared (dtor env (ref_dec env fuel)) (record w { cells = cs }) one p live f.not_null
          f.valid (omega (arith, f.positive)) f.small in
      let rest = drop_each_lem ps w (ground (arith, h)) in ground (arith, dec, left, rest)

  -- In a segment where the accelerators of a kind live, each once in its list, with a count that
  -- can take one reference more, `arax_accel_list` with no earlier array to free gives the number of
  -- those of the type (of all for the type 0) and the array of them, in the order of the list; and
  -- `arax_accel_list_free` on that array leaves the segment as it was before the listing.
  pub list_free-list :
      (type : ℕ) (w : World)
      → all_fit physical w.cells (listed physical w.repo) ≡ true
      → let found = of_type physical type w.cells (listed physical w.repo) in
        (do l ← list env (suc fuel) type physical (some []); list_free env (suc fuel) l.1; pure l) w
        ≡ ok ((length found, found), w)
  unfolding list list_free list_free_pre_locked drop_each ◌>>=◌
  list_free-list type w h =
      let ps : List Ptr = listed physical w.repo in
      let found : List Ptr = of_type physical type w.cells ps in
      let got = collect_lem physical type ps w h in
      let back = drop_each_lem found w (all_fit-of_type physical type ps w.cells h) in
      ground (arith, got, back)
