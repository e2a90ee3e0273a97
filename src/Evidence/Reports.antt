-- ===== src/Evidence/Reports.antt =====
-- What a pass reports of the claims it measured (grounding.py: compute_yield).
use opentheory.Base.{
  ℕ, ◌≤◌, ◌≡◌, refl, sym, ◌⊎◌, ◌↔◌, inl, inr, Option, List, [], ◌∷◌, Bool-cases, length, In,
  In-append, In-append_left, In-append_right,
}
use mathlib.Core.Path.{subst}
use opentheory.Evidence.Grounding.{ClaimGrounding}
use opentheory.Evidence.Yield.{
  ClaimMovement, movement, ClaimYield, or_ungrounded, Diff, record_claim, diff_claims,
  compute_yield,
}
use opentheory.Evidence.Counts.{moved_in, compute_yield_counts}
use opentheory.Evidence.Movements.{
  refutes, Moves, movement-Moves, Moves-unique, Noted, is_noted, is_noted_iff,
}

abbrev entry_of : ℕ → ClaimGrounding → ClaimGrounding → ClaimMovement → ClaimYield
entry_of id was now how = record {
  claim_id = id;
  before = was.headline;
  after = now.headline;
  movement = how;
}

record_claim_iff :
    (id : ℕ) (was now : ClaimGrounding) (how : ClaimMovement) (diff : Diff) (e : ClaimYield)
    → In e (record_claim id was now how diff).changed
      ↔ (In e diff.changed ⊎ ((entry_of id was now how ≡ e) × Noted was now how))
unfolding record_claim
record_claim_iff id was now how diff e = elim (Bool-cases (is_noted was now how)) [
  | inl noted ↦ rw noted (
    λ there. elim (In-append e diff.changed (entry_of id was now how ∷ []) there) [
      | inl old ↦ inl old
      | inr new ↦ elim new [
        | inl same ↦ inr (same, (is_noted_iff was now how).0 noted)
        | inr nowhere ↦ elim nowhere [ ]
      ]
    ],
    λ either. elim either [
      | inl old ↦ In-append_left e diff.changed (entry_of id was now how ∷ []) old
      | inr new ↦ In-append_right e diff.changed (entry_of id was now how ∷ []) (inl new.0)
    ],
  )
  | inr quiet ↦ rw quiet (
    λ there. inl there,
    λ either. elim either [
      | inl old ↦ old
      | inr new ↦ absurd (refutes _ (is_noted_iff was now how) quiet new.1)
    ],
  )
]

module _ (before after : ℕ → Option ClaimGrounding) where
  -- The entry says what the two snapshots hold of its claim, how the claim moved, and that is news.
  abbrev pub Reports : ClaimYield → Type 0
  Reports e =
      let was = or_ungrounded (before e.claim_id) in
      let now = or_ungrounded (after e.claim_id) in
      (e.before ≡ was.headline)
      × (e.after ≡ now.headline)
      × Moves was now e.movement
      × Noted was now e.movement

  entry-Reports :
      (id : ℕ) (e : ClaimYield)
      → let was = or_ungrounded (before id) in
        let now = or_ungrounded (after id) in
        entry_of id was now (movement was now) ≡ e
        → Noted was now (movement was now)
        → (id ≡ e.claim_id) × Reports e
  entry-Reports id e same noted =
      subst (λ x. (id ≡ x.claim_id) × Reports x) same
        (
          refl,
          (
            refl,
            refl,
            movement-Moves (or_ungrounded (before id)) (or_ungrounded (after id)),
            noted,
          ),
        )

  Reports-entry :
      (e : ClaimYield)
      → Reports e
      → let was = or_ungrounded (before e.claim_id) in
        let now = or_ungrounded (after e.claim_id) in
        (entry_of e.claim_id was now (movement was now) ≡ e) × Noted was now (movement was now)
  Reports-entry e (from, to, how, noted) =
      let was = or_ungrounded (before e.claim_id) in
      let now = or_ungrounded (after e.claim_id) in
      let same = Moves-unique was now e.movement (movement was now) how (movement-Moves was now) in
      (cc, subst (Noted was now) same noted)

  diff_claims_iff :
      (ids : List ℕ) (diff : Diff) (e : ClaimYield)
      → In e (diff_claims before after ids diff).changed
        ↔ (In e diff.changed ⊎ (In e.claim_id ids × Reports e))
  unfolding diff_claims
  diff_claims_iff [] diff e =
      (λ there. inl there, λ either. elim either [ inl old ↦ old | inr new ↦ elim new.0 [ ] ])
  diff_claims_iff (id ∷ ids) diff e =
      let was = or_ungrounded (before id) in
      let now = or_ungrounded (after id) in
      let how = movement was now in
      let rest = diff_claims_iff ids (record_claim id was now how diff) e in
      let step = record_claim_iff id was now how diff e in
      (
        λ there. elim (rest.0 there) [
          | inl earlier ↦ elim (step.0 earlier) [
            | inl old ↦ inl old
            | inr new ↦ (let told = entry-Reports id e new.0 new.1 in inr (inl told.0, told.1))
          ]
          | inr later ↦ inr (inr later.0, later.1)
        ],
        λ either. elim either [
          | inl old ↦ rest.1 (inl (step.1 (inl old)))
          | inr (place, told) ↦ elim place [
            | inl here ↦ rest.1 (
                inl (
                  step.1 (
                    inr (
                      subst
                        (λ i.
                          (entry_of i (or_ungrounded (before i)) (or_ungrounded (after i))
                              (movement (or_ungrounded (before i)) (or_ungrounded (after i)))
                            ≡ e)
                          × Noted (or_ungrounded (before i)) (or_ungrounded (after i))
                              (movement (or_ungrounded (before i)) (or_ungrounded (after i))))
                        (sym here) (Reports-entry e told)))))
            | inr there ↦ rest.1 (inr (there, told))
          ]
        ],
      )

-- A pass reports exactly the measured claims that moved or have another headline: each entry has the
-- claim's headlines in the two snapshots and its movement, which is settled where the headline changed
-- to proven or refuted, raised where it did not and the support is of a better grade, and unchanged
-- otherwise. It measures every claim given, counts as moved exactly the entries that are not
-- unchanged, and has no more entries than claims.
pub compute_yield_iff :
    (ids : List ℕ) (before after : ℕ → Option ClaimGrounding)
    → let yield = compute_yield ids before after in
      ((e : ClaimYield) → In e yield.changed ↔ (In e.claim_id ids × Reports before after e))
      × (yield.measured ≡ length ids)
      × (yield.moved ≡ moved_in yield.changed)
      × (length yield.changed ≤ length ids)
unfolding compute_yield
compute_yield_iff ids before after =
    let counts = compute_yield_counts ids before after in
    (
      λ e.
          let found = diff_claims_iff before after ids (record { moved = 0; changed = [] }) e in
          (
            λ there. elim (found.0 there) [ inl nowhere ↦ elim nowhere [ ] | inr told ↦ told ],
            λ told. found.1 (inr told),
          ),
      refl,
      sym counts.0,
      counts.1,
    )
