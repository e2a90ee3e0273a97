-- ===== src/Meter/Holds/Matching.antt =====
-- `unmatched_holds` against the rows it reads: a hold with an id is open exactly until a release
-- with that id is written.
use opentheory.Base.{
  ℕ, ◌≡◌, refl, sym, ap, ◌∙◌, ◌↔◌, inl, inr, Bool, true, false, not, ◌||◌, List, [], ◌∷◌, ◌++◌,
  arith, ◌==◌, if◌then◌else◌, Bool-cases, In, In-append, In-append_left, elem,
}
use mathlib.Core.Path.{ap₂, subst}
use mathlib.Core.List.{append-nil, append_assoc}
use opentheory.Base.Int.{ℤ, ◌-ℤ◌, neg, leb_ℤ}
use opentheory.Meter.Notes.{Uuids}
use opentheory.Meter.Holds.{
  Row, View, release_of, hold_of, hold_legacy, view, view_in, Scan, scan_row, empty_scan, scan,
  still_open, match_legacy, unmatched_holds,
}

-- Some row releases this id.
abbrev pub releases : ℕ → View → Bool
releases id (release_of j) = id == j
releases id _ = false

abbrev pub is_hold : View → Bool
is_hold (hold_of id) = true
is_hold _ = false

abbrev pub is_legacy : View → Bool
is_legacy hold_legacy = true
is_legacy _ = false

module _ (u : Uuids) where
  abbrev pub is_released : ℕ → List Row → Bool
  is_released id [] = false
  is_released id (row ∷ rows) = releases id (view u row) || is_released id rows

  abbrev pub pick : (View → Bool) → List Row → List Row
  pick test [] = []
  pick test (row ∷ rows) =
      let rest = pick test rows in if test (view u row) then row ∷ rest else rest

  pub scan-released :
      (id : ℕ) (s : Scan) (rows : List Row)
      → elem id (scan u s rows).released_ids ≡ (is_released id rows || elem id s.released_ids)
  unfolding scan
  scan-released id s [] = refl
  scan-released id s (row ∷ rows) =
      scan-released id (scan_row (view u row) row s) rows
      ∙ by_view (view u row) (is_released id rows)
    where
      by_view :
          (v : View) (b : Bool)
          → (b || elem id (scan_row v row s).released_ids)
            ≡ ((releases id v || b) || elem id s.released_ids)
      by_view v b = ground arith

  scan-identified :
      (s : Scan) (rows : List Row) → (scan u s rows).identified ≡ s.identified ++ pick is_hold rows
  unfolding scan
  scan-identified s [] = sym (append-nil s.identified)
  scan-identified s (row ∷ rows) =
      scan-identified (scan_row (view u row) row s) rows ∙ by_view (view u row)
    where
      by_view :
          (v : View)
          → (scan_row v row s).identified ++ pick is_hold rows
            ≡ s.identified ++ (if is_hold v then row ∷ pick is_hold rows else pick is_hold rows)
      by_view (hold_of id) = append_assoc s.identified (row ∷ []) (pick is_hold rows)
      by_view (release_of id) = refl
      by_view _ = refl

  scan-legacy :
      (s : Scan) (rows : List Row) → (scan u s rows).legacy ≡ s.legacy ++ pick is_legacy rows
  unfolding scan
  scan-legacy s [] = sym (append-nil s.legacy)
  scan-legacy s (row ∷ rows) = scan-legacy (scan_row (view u row) row s) rows ∙ by_view (view u row)
    where
      by_view :
          (v : View)
          → (scan_row v row s).legacy ++ pick is_legacy rows
            ≡ s.legacy ++ (if is_legacy v then row ∷ pick is_legacy rows else pick is_legacy rows)
      by_view hold_legacy = append_assoc s.legacy (row ∷ []) (pick is_legacy rows)
      by_view (release_of id) = refl
      by_view _ = refl

  pub In-pick :
      (test : View → Bool) (x : Row) (rows : List Row)
      → In x (pick test rows) ↔ (In x rows × (test (view u x) ≡ true))
  In-pick test x [] = (λ h. elim h [ ], λ h. elim h.0 [ ])
  In-pick test x (row ∷ rows) = elim (Bool-cases (test (view u row))) [
    | inl keep ↦ rw keep (
      λ h. elim h [
        | inl e ↦ (inl e, ap (λ r. test (view u r)) (sym e) ∙ keep)
        | inr rest ↦ (inr ((In-pick test x rows).0 rest).0, ((In-pick test x rows).0 rest).1)
      ],
      λ h. elim h.0 [ inl e ↦ inl e | inr rest ↦ inr ((In-pick test x rows).1 (rest, h.1)) ],
    )
    | inr skip ↦ rw skip (
      λ h. (inr ((In-pick test x rows).0 h).0, ((In-pick test x rows).0 h).1),
      λ h. elim h.0 [
        | inl e ↦ absurd (cc (skip, h.1, ap (λ r. test (view u r)) e))
        | inr rest ↦ (In-pick test x rows).1 (rest, h.1)
      ],
    )
  ]

  -- What `still_open` keeps is what is picked by a test on the view.
  abbrev pub not_in : List ℕ → View → Bool
  not_in ids v = not (view_in v ids)

  still_open-pick :
      (ids : List ℕ) (rows : List Row) → still_open u ids rows ≡ pick (not_in ids) rows
  unfolding still_open
  still_open-pick ids [] = refl
  still_open-pick ids (row ∷ rows) = elim (Bool-cases (view_in (view u row) ids)) [
    | inl gone ↦ rw gone (still_open-pick ids rows)
    | inr kept ↦ rw kept (ap (λ rest. row ∷ rest) (still_open-pick ids rows))
  ]

  pub In-match_legacy :
      (x : Row) (t : ℤ) (rows : List Row) → In x (match_legacy u t rows) → In x rows
  unfolding match_legacy
  In-match_legacy x t [] h = h
  In-match_legacy x t (row ∷ rows) h = elim (Bool-cases (leb_ℤ row.tokens_used t)) [
    | inl covered ↦ inr (In-match_legacy x (t -ℤ row.tokens_used) rows (rw covered at h))
    | inr short ↦ elim (let h' : In x (row ∷ match_legacy u t rows) = rw short at h in h') [
      | inl e ↦ inl e
      | inr rest ↦ inr (In-match_legacy x t rows rest)
    ]
  ]

  -- The rows' own picks in place of the scan's variables.
  pub unmatched_holds_lem :
      (rows : List Row)
      → let s = scan u empty_scan rows in
        unmatched_holds u rows
        ≡ pick (not_in s.released_ids) (pick is_hold rows)
          ++ match_legacy u (neg s.legacy_release_tokens) (pick is_legacy rows)
  unfolding unmatched_holds
  unmatched_holds_lem rows =
      let s = scan u empty_scan rows in
      ap₂
        (λ xs ys. still_open u s.released_ids xs ++ match_legacy u (neg s.legacy_release_tokens) ys)
        (scan-identified empty_scan rows) (scan-legacy empty_scan rows)
      ∙ ap (λ xs. xs ++ match_legacy u (neg s.legacy_release_tokens) (pick is_legacy rows))
          (still_open-pick s.released_ids (pick is_hold rows))

  pub released_lem :
      (id : ℕ) (rows : List Row)
      → elem id (scan u empty_scan rows).released_ids ≡ is_released id rows
  released_lem id rows = scan-released id empty_scan rows ∙ or_false (is_released id rows)
    where
      or_false : (b : Bool) → (b || false) ≡ b
      or_false true = refl
      or_false false = refl

  pub In-unmatched_holds :
      (row : Row) (id : ℕ) (rows : List Row)
      → view u row ≡ hold_of id
      → In row (unmatched_holds u rows) ↔ (In row rows × (is_released id rows ≡ false))
  In-unmatched_holds row id rows v =
      let s = scan u empty_scan rows in
      let ids = s.released_ids in
      let kept = pick (not_in ids) (pick is_hold rows) in
      let leftover = match_legacy u (neg s.legacy_release_tokens) (pick is_legacy rows) in
      let norm = unmatched_holds_lem rows in
      let open_view = In-pick (not_in ids) row (pick is_hold rows) in
      let hold_view = In-pick is_hold row rows in
      (
        λ h. elim (In-append row kept leftover (subst (In row) norm h)) [
          | inl found ↦
              let parts = open_view.0 found in
              ((hold_view.0 parts.0).0, sym (released_lem id rows) ∙ is_open ids parts.1)
          | inr old ↦
              let legacy_view = (In-pick is_legacy row rows).0 (In-match_legacy row _ _ old) in
              absurd (cc (ap is_legacy (sym v) ∙ legacy_view.1))
        ],
        λ h. subst (In row) (sym norm) (
            In-append_left row kept leftover
              (open_view.1 (hold_view.1 (h.0, rw v), rw (v, released_lem id rows, h.1)))),
      )
    where
      is_open : (ids : List ℕ) → not_in ids (view u row) ≡ true → elem id ids ≡ false
      is_open ids e = ground (arith, v)
