-- ===== src/Meter/Holds/Closing.antt =====
-- Writing a release row closes the holds with its id and leaves every other hold as it was.
use opentheory.Base.{
  ℕ, ◌≡◌, refl, sym, ap, ◌∙◌, ◌↔◌, inl, inr, Bool, true, false, ◌&&◌, some, List, [], ◌∷◌, ◌++◌,
  arith, Bool-cases, In,
}
use mathlib.Core.Path.{ap₂}
use opentheory.Base.Int.{ℤ, neg}
use opentheory.Meter.Notes.{Uuids, hold_notes, release_notes}
use opentheory.Meter.Notes.Kinds.{
  hold_notes-contains, release_notes-contains, parse_hold_id-hold_notes,
  parse_hold_id-release_notes,
}
use opentheory.Meter.Holds.{
  Row, View, release_of, hold_of, hold_legacy, release_legacy, view, with_id, Scan, scan_row,
  empty_scan, scan, match_legacy, unmatched_holds,
}
use opentheory.Meter.Holds.Matching.{
  is_released, In-unmatched_holds, is_hold, is_legacy, pick, not_in, In-pick, In-match_legacy,
  unmatched_holds_lem,
}

module _ (u : Uuids) where
  scan_snoc :
      (s : Scan) (rows : List Row) (last : Row)
      → scan u s (rows ++ (last ∷ [])) ≡ scan_row (view u last) last (scan u s rows)
  unfolding scan
  scan_snoc s [] last = refl
  scan_snoc s (row ∷ rows) last = scan_snoc (scan_row (view u row) row s) rows last

  pick_snoc :
      (test : View → Bool) (xs : List Row) (last : Row)
      → test (view u last) ≡ false
      → pick u test (xs ++ (last ∷ [])) ≡ pick u test xs
  pick_snoc test [] last h = rw h
  pick_snoc test (x ∷ xs) last h = elim (Bool-cases (test (view u x))) [
    | inl keep ↦ rw keep (ap (λ rest. x ∷ rest) (pick_snoc test xs last h))
    | inr skip ↦ rw skip (pick_snoc test xs last h)
  ]

  not_in-cons :
      (id : ℕ) (ids : List ℕ) (v : View)
      → not_in u (id ∷ ids) v ≡ (not_in u ids v && not_in u (id ∷ []) v)
  not_in-cons id ids v = ground arith

  pick-pick :
      (id : ℕ) (ids : List ℕ) (rows : List Row)
      → pick u (not_in u (id ∷ ids)) rows ≡ pick u (not_in u (id ∷ [])) (pick u (not_in u ids) rows)
  pick-pick id ids [] = refl
  pick-pick id ids (row ∷ rows) = elim (Bool-cases (not_in u ids (view u row))) [
    | inl kept ↦ elim (Bool-cases (not_in u (id ∷ []) (view u row))) [
      | inl both ↦
          rw (not_in-cons id ids (view u row), kept, both)
            (ap (λ rest. row ∷ rest) (pick-pick id ids rows))
      | inr now ↦ rw (not_in-cons id ids (view u row), kept, now) (pick-pick id ids rows)
    ]
    | inr gone ↦ rw (not_in-cons id ids (view u row), gone) (pick-pick id ids rows)
  ]

  pick_all :
      (test : View → Bool) (rows : List Row)
      → ((x : Row) → In x rows → test (view u x) ≡ true)
      → pick u test rows ≡ rows
  pick_all test [] h = refl
  pick_all test (row ∷ rows) h =
      rw (h row (inl refl)) (ap (λ rest. row ∷ rest) (pick_all test rows (λ x i. h x (inr i))))

  legacy_view :
      (id : ℕ) (t : ℤ) (rows : List Row) (x : Row)
      → In x (match_legacy u t (pick u is_legacy rows))
      → not_in u (id ∷ []) (view u x) ≡ true
  legacy_view id t rows x h =
      let old = (In-pick u is_legacy x rows).0 (In-match_legacy u x t _ h) in
      by_view (view u x) old.1
    where
      by_view : (v : View) → is_legacy v ≡ true → not_in u (id ∷ []) v ≡ true
      by_view v e = ground arith

  pick_parts :
      (test : View → Bool) (xs ys : List Row)
      → ((x : Row) → In x ys → test (view u x) ≡ true)
      → pick u test (xs ++ ys) ≡ pick u test xs ++ ys
  pick_parts test [] ys h = pick_all test ys h
  pick_parts test (x ∷ xs) ys h = elim (Bool-cases (test (view u x))) [
    | inl keep ↦ rw keep (ap (λ rest. x ∷ rest) (pick_parts test xs ys h))
    | inr skip ↦ rw skip (pick_parts test xs ys h)
  ]

  unmatched_holds_snoc :
      (rows : List Row) (last : Row) (id : ℕ)
      → view u last ≡ release_of id
      → unmatched_holds u (rows ++ (last ∷ []))
        ≡ pick u (not_in u (id ∷ [])) (unmatched_holds u rows)
  unmatched_holds_snoc rows last id v =
      let s = scan u empty_scan rows in
      let holds = pick u is_hold rows in
      let leftover = match_legacy u (neg s.legacy_release_tokens) (pick u is_legacy rows) in
      let scanned = scan_snoc empty_scan rows last ∙ ap (λ w. scan_row w last s) v in
      unmatched_holds_lem u (rows ++ (last ∷ []))
      ∙ (ap (λ t. assemble t (rows ++ (last ∷ []))) scanned
          ∙ (ap₂ (pieces (id ∷ s.released_ids) (neg s.legacy_release_tokens))
                (pick_snoc is_hold rows last (rw v)) (pick_snoc is_legacy rows last (rw v))
              ∙ (ap (λ xs. xs ++ leftover) (pick-pick id s.released_ids holds)
                  ∙ (sym (
                        pick_parts (not_in u (id ∷ [])) (pick u (not_in u s.released_ids) holds)
                          leftover (legacy_view id (neg s.legacy_release_tokens) rows))
                      ∙ ap (pick u (not_in u (id ∷ []))) (sym (unmatched_holds_lem u rows))))))
    where
      pieces : List ℕ → ℤ → List Row → List Row → List Row
      pieces ids t hs ls = pick u (not_in u ids) hs ++ match_legacy u t ls

      assemble : Scan → List Row → List Row
      assemble t rs =
          pieces t.released_ids (neg t.legacy_release_tokens) (pick u is_hold rs)
            (pick u is_legacy rs)

  view_of_hold : (row : Row) (id : ℕ) → row.notes ≡ some (hold_notes u id) → view u row ≡ hold_of id
  unfolding view
  view_of_hold row id e =
      let marks = hold_notes-contains u id in
      rw (e, marks.1, marks.0)
        (ap (λ i. with_id i hold_of hold_legacy) (parse_hold_id-hold_notes u id))

  view_of_release :
      (row : Row) (id : ℕ)
      → row.notes ≡ some (release_notes u (some id))
      → view u row ≡ release_of id
  unfolding view
  view_of_release row id e =
      rw (e, (release_notes-contains u (some id)).1)
        (ap (λ i. with_id i release_of release_legacy) (parse_hold_id-release_notes u (some id)))

  -- Appending the release row for an id takes every hold with that id out of the unmatched holds,
  -- and no other row, in whatever order and with whatever leftovers the rows stand.
  pub unmatched_holds-release :
      (rows : List Row) (last : Row) (id : ℕ)
      → last.notes ≡ some (release_notes u (some id))
      → unmatched_holds u (rows ++ (last ∷ []))
        ≡ pick u (not_in u (id ∷ [])) (unmatched_holds u rows)
  unmatched_holds-release rows last id e =
      unmatched_holds_snoc rows last id (view_of_release last id e)

  -- A row with the notes of a hold is among the unmatched holds exactly when it is one of the rows
  -- and no row releases its id.
  pub In-unmatched_holds_of_notes :
      (row : Row) (id : ℕ) (rows : List Row)
      → row.notes ≡ some (hold_notes u id)
      → In row (unmatched_holds u rows) ↔ (In row rows × (is_released u id rows ≡ false))
  In-unmatched_holds_of_notes row id rows e =
      In-unmatched_holds u row id rows (view_of_hold row id e)
