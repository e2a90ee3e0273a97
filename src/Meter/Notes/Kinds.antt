-- ===== src/Meter/Notes/Kinds.antt =====
-- The notes of hold and release rows: which kind of row they mark, and the id that they carry.
use opentheory.Base.{
  ℕ, ◌≡◌, refl, ap, ◌∙◌, true, false, Option, none, some, [], ◌∷◌, ◌++◌, arith, All, All-append,
}
use opentheory.Base.Text.{Text, contains, join}
use opentheory.Base.Text.Parts.{IsToken, map-strip-split, contains_alien}
use opentheory.Meter.Notes.{
  Uuids, is_plain, session_notes, hold_notes_mark, release_notes_mark, hold_id_mark, hold_notes,
  release_notes, uuid_of, parse_hold_id, is_daily_cap_adjustment, classify_harness_row, hold,
  release,
}
use opentheory.Meter.Notes.RoundTrip.{first_token, first_marked-strip}

plain-IsToken : (s : Text) → All (λ c. is_plain c ≡ true) s → IsToken s
plain-IsToken [] h = tt
plain-IsToken (c ∷ s) h = (ground (arith, h.0), plain-IsToken s h.1)

-- A text with a character outside the hexadecimal digits is not found among them.
not_in_plain :
    (mark s : Text)
    → ¬ (All (λ c. is_plain c ≡ true) mark)
    → All (λ c. is_plain c ≡ true) s
    → contains mark s ≡ false
not_in_plain mark s alien h = contains_alien is_plain mark s h alien

module _ (u : Uuids) where
  id-IsToken : (id : ℕ) → IsToken (hold_id_mark ++ u.str id)
  id-IsToken id =
      All-append _ hold_id_mark (u.str id) (ground arith) (plain-IsToken _ (u.str_plain id))

  pub parse_hold_id-hold_notes : (id : ℕ) → parse_hold_id u (some (hold_notes u id)) ≡ some id
  unfolding parse_hold_id hold_notes
  parse_hold_id-hold_notes id =
      ap (uuid_of u) (
        first_marked-strip hold_id_mark _
        ∙ ap (first_token hold_id_mark)
            (map-strip-split session_notes _ (ground arith) (ground arith, (id-IsToken id, tt))))
      ∙ u.parse-str id

  pub parse_hold_id-release_notes :
      (id : Option ℕ) → parse_hold_id u (some (release_notes u id)) ≡ id
  unfolding parse_hold_id release_notes
  parse_hold_id-release_notes none = ap (uuid_of u) (
      first_marked-strip hold_id_mark _
      ∙ ap (first_token hold_id_mark)
          (map-strip-split session_notes _ (ground arith) (ground arith, tt)))
  parse_hold_id-release_notes (some id) =
      ap (uuid_of u) (
        first_marked-strip hold_id_mark _
        ∙ ap (first_token hold_id_mark)
            (map-strip-split session_notes _ (ground arith) (ground arith, (id-IsToken id, tt))))
      ∙ u.parse-str id

  pub hold_notes-contains :
      (id : ℕ)
      → (contains hold_notes_mark (hold_notes u id) ≡ true)
        × (contains release_notes_mark (hold_notes u id) ≡ false)
  unfolding hold_notes contains join
  hold_notes-contains id =
      (refl, not_in_plain release_notes_mark (u.str id) (λ h. cc (h.1.1.0)) (u.str_plain id))

  pub release_notes-contains :
      (id : Option ℕ)
      → (contains hold_notes_mark (release_notes u id) ≡ false)
        × (contains release_notes_mark (release_notes u id) ≡ true)
  unfolding release_notes contains join
  release_notes-contains none = (refl, refl)
  release_notes-contains (some id) =
      (not_in_plain hold_notes_mark (u.str id) (λ h. cc (h.1.1.0)) (u.str_plain id), refl)

  -- A hold row's notes carry their id and mark a hold; a release row's notes carry the id they were
  -- given, `None` included, and mark a release; both count as daily-cap adjustments.
  pub adjustment_notes_round_trip :
      (id : ℕ) (released : Option ℕ)
      → (parse_hold_id u (some (hold_notes u id)) ≡ some id)
        × (classify_harness_row (some (hold_notes u id)) ≡ hold)
        × (is_daily_cap_adjustment (some (hold_notes u id)) ≡ true)
        × (parse_hold_id u (some (release_notes u released)) ≡ released)
        × (classify_harness_row (some (release_notes u released)) ≡ release)
        × (is_daily_cap_adjustment (some (release_notes u released)) ≡ true)
  unfolding classify_harness_row is_daily_cap_adjustment
  adjustment_notes_round_trip id released =
      let held = hold_notes-contains id in
      let freed = release_notes-contains released in
      (
        parse_hold_id-hold_notes id,
        rw held.0,
        rw held.0,
        parse_hold_id-release_notes released,
        rw (freed.0, freed.1),
        rw (freed.0, freed.1),
      )
