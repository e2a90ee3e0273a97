-- ===== src/Crew/Tokens/Resolving.antt =====
-- Who a session token lets in (agent_tokens.py: resolve_agent_session_token), and how it fails.
use opentheory.Base.{
  ℕ, ◌+◌, ◌<◌, ◌≡◌, refl, sym, ◌≢◌, ◌⊎◌, inl, inr, true, false, not, Option, none, some, List, [],
  ◌∷◌, arith, ltb, leb, ◌==◌, Bool-cases, is_none,
}
use opentheory.Base.Http.{
  HttpError, forbidden, unauthorized, Result, ok, err, raise_if, or_raise, Fails, Fails-bind,
  Fails-raise_if, Fails-or_raise,
}
use mathlib.Core.Path.{subst}
use opentheory.Base.Text.{Text, text_eq}
use opentheory.Ledger.Store.{agent}
use opentheory.Crew.Store.{
  active, is_active, ProjectAgentMember, AgentSessionToken, AgentActor, Store, find_seat,
  find_token, find_agent,
}
use opentheory.Crew.Tokens.{
  Jwt, Settings, Bound, live_row, seat_is_active, skew, resolve_agent_session_token,
}
use opentheory.Crew.Step.{seat_status, status_of_seat}
use opentheory.Crew.Tokens.Sessions.{resolve_checks, live_row_ok}

find_token-id :
    (id : ℕ) (rows : List AgentSessionToken) {row : AgentSessionToken}
    → find_token id rows ≡ some row
    → row.id ≡ id
find_token-id id [] h = cc
find_token-id id (first ∷ rows) {row} h = elim (Bool-cases (first.id == id)) [
  | inl here ↦
      let e : some first ≡ some row = rw here at h in
      let same : first ≡ row = cc in rw (← same) (ground arith)
  | inr there ↦ find_token-id id rows (rw there at h)
]

find_token_own :
    (id : ℕ) (rows : List AgentSessionToken) {row : AgentSessionToken}
    → find_token id rows ≡ some row
    → find_token row.id rows ≡ some row
find_token_own id rows {row} h =
    subst (λ i. find_token i rows ≡ some row) (sym (find_token-id id rows h)) h

pub find_agent-id :
    (id : ℕ) (rows : List AgentActor) {row : AgentActor}
    → find_agent id rows ≡ some row
    → row.id ≡ id
find_agent-id id [] h = cc
find_agent-id id (first ∷ rows) {row} h = elim (Bool-cases (first.id == id)) [
  | inl here ↦
      let e : some first ≡ some row = rw here at h in
      let same : first ≡ row = cc in rw (← same) (ground arith)
  | inr there ↦ find_agent-id id rows (rw there at h)
]

module _ (j : Jwt) (settings : Settings) where
  -- The row behind a session that was let in.
  abbrev pub LetIn : Store → Text → ℕ → Bound → AgentSessionToken → Type 0
  LetIn store compact now bound row =
      (find_token bound.token_jti store.tokens ≡ some row)
      × (text_eq row.token_hash (j.hash compact) ≡ true)
      × (row.revoked_at ≡ none)
      × (now < row.expires_at)
      × (seat_status row.project_id row.actor_id store.seats ≡ some active)
      × (bound.acting.id ≡ row.actor_id)
      × (bound.acting.type ≡ agent)
      × (bound.acting.token_project ≡ some row.project_id)
      × (bound.sponsored_by ≡ row.minted_by_actor_id)

  -- A live row of the store with the presented hash, whose seat is not active.
  abbrev pub ShutOut : Store → Text → ℕ → AgentSessionToken → Type 0
  ShutOut store compact now row =
      (find_token row.id store.tokens ≡ some row)
      × (text_eq row.token_hash (j.hash compact) ≡ true)
      × (row.revoked_at ≡ none)
      × (now < row.expires_at)
      × (seat_status row.project_id row.actor_id store.seats ≢ some active)

  abbrev pub ResolveError : Store → Text → ℕ → HttpError → Type 0
  ResolveError store compact now code =
      (code ≡ unauthorized)
      ⊎ ((row : AgentSessionToken) × (code ≡ forbidden) × ShutOut store compact now row)

  abbrev pub ResolveOutcome : Store → Text → ℕ → Result (Bound × Store) → Type 0
  ResolveOutcome store compact now (ok (bound, after)) =
      (row : AgentSessionToken) × LetIn store compact now bound row
  ResolveOutcome store compact now (err code) = ResolveError store compact now code

  let_in :
      (store : Store) (compact : Text) (now : ℕ) {bound : Bound} {after : Store}
      → resolve_agent_session_token j settings store compact now ≡ ok (bound, after)
      → (row : AgentSessionToken) × LetIn store compact now bound row
  let_in store compact now h =
      let checks = resolve_checks j settings store compact now h in
      let row = checks.5 in
      let admitted = checks.10 in
      let found : find_token row.id store.tokens ≡ some row =
        find_token_own checks.2 store.tokens checks.9 in
      (
        row,
        subst (λ (o : Bound × Store). LetIn store compact now o.0 row) checks.13
            (
              found,
              admitted.0,
              admitted.3,
              admitted.4,
              checks.12,
              find_agent-id row.actor_id store.agents checks.11,
              refl,
              refl,
              refl,
            ),
      )

  seat-Fails :
      (o : Option ProjectAgentMember) (P : HttpError → Type 0)
      → (status_of_seat o ≢ some active → P forbidden)
      → Fails P (seat_is_active j settings o)
  seat-Fails none P shut = shut (λ e. cc)
  seat-Fails (some seat) P shut = elim (Bool-cases (not (is_active seat.status))) [
    | inl bad ↦ rw bad (
        shut (λ e.
          let is : seat.status ≡ active = cc in (let wrong : false ≡ true = rw is at bad in cc)))
    | inr good ↦ rw good tt
  ]

  resolve-Fails :
      (store : Store) (compact : Text) (now : ℕ)
      → Fails
          (ResolveError store compact now)
          (resolve_agent_session_token j settings store compact now)
  unfolding resolve_agent_session_token
  resolve-Fails store compact now =
      let P = ResolveError store compact now in
      let no : ResolveError store compact now unauthorized = inl refl in
      Fails-bind P (raise_if (not (j.looks_like_agent_session compact)) unauthorized) _
        (Fails-raise_if P _ unauthorized no)
        λ x1 e1.
          Fails-bind P (or_raise settings.secret unauthorized) _
            (Fails-or_raise P _ unauthorized no)
            λ secret e2.
              Fails-bind P (or_raise (j.decode compact secret now) unauthorized) _
                (Fails-or_raise P _ unauthorized no)
                λ claims e3.
                  Fails-bind P (raise_if (not claims.is_agent_session) unauthorized) _
                    (Fails-raise_if P _ unauthorized no)
                    λ x4 e4.
                      Fails-bind P (raise_if (ltb (now + skew j settings) claims.iat) unauthorized)
                        _ (Fails-raise_if P _ unauthorized no)
                        λ x5 e5.
                          Fails-bind P (or_raise claims.jti unauthorized) _
                            (Fails-or_raise P _ unauthorized no)
                            λ jti e6.
                              Fails-bind P (or_raise claims.sub unauthorized) _
                                (Fails-or_raise P _ unauthorized no)
                                λ sub e7.
                                  Fails-bind P (or_raise claims.proj unauthorized) _
                                    (Fails-or_raise P _ unauthorized no)
                                    λ proj e8.
                                      Fails-bind P
                                        (live_row j settings sub proj (j.hash compact) now
                                          (find_token jti store.tokens))
                                        _ (live-Fails sub proj (find_token jti store.tokens))
                                        λ row e9.
                                          Fails-bind P
                                            (or_raise (find_agent row.actor_id store.agents)
                                              unauthorized)
                                            _ (Fails-or_raise P _ unauthorized no)
                                            λ actor e10.
                                              Fails-bind P
                                                (seat_is_active j settings (
                                                  find_seat row.project_id row.actor_id
                                                    store.seats))
                                                _
                                                (seat-Fails
                                                  (find_seat row.project_id row.actor_id
                                                    store.seats)
                                                  P
                                                  λ shut.
                                                    let live =
                                                      live_row_ok j settings sub proj
                                                        (j.hash compact) now
                                                        (find_token jti store.tokens) e9 in
                                                    inr (
                                                      row,
                                                      refl,
                                                      (
                                                        find_token_own jti store.tokens live.0,
                                                        live.1.0,
                                                        live.1.3,
                                                        live.1.4,
                                                        shut,
                                                      ),
                                                    ))
                                                λ x e. tt
    where
      live-Fails :
          (sub proj : ℕ) (o : Option AgentSessionToken)
          → Fails
              (ResolveError store compact now)
              (live_row j settings sub proj (j.hash compact) now o)
      live-Fails sub proj none = inl refl
      live-Fails sub proj (some row) =
          let P = ResolveError store compact now in
          let no : ResolveError store compact now unauthorized = inl refl in
          Fails-bind P (raise_if (not (text_eq row.token_hash (j.hash compact))) unauthorized) _
            (Fails-raise_if P _ unauthorized no)
            λ x1 e1.
              Fails-bind P (raise_if (not (row.actor_id == sub)) unauthorized) _
                (Fails-raise_if P _ unauthorized no)
                λ x2 e2.
                  Fails-bind P (raise_if (not (row.project_id == proj)) unauthorized) _
                    (Fails-raise_if P _ unauthorized no)
                    λ x3 e3.
                      Fails-bind P (raise_if (not (is_none row.revoked_at)) unauthorized) _
                        (Fails-raise_if P _ unauthorized no)
                        λ x4 e4.
                          Fails-bind P (raise_if (leb row.expires_at now) unauthorized) _
                            (Fails-raise_if P _ unauthorized no) λ x5 e5. tt

  resolve_cases :
      (store : Store) (compact : Text) (now : ℕ) (r : Result (Bound × Store))
      → resolve_agent_session_token j settings store compact now ≡ r
      → ResolveOutcome store compact now r
  resolve_cases store compact now (ok (bound, after)) h = let_in store compact now h
  resolve_cases store compact now (err code) h =
      let out = resolve-Fails store compact now in (rw h at out)

  -- A presented token is let in only for a row of the store with its hash that is not revoked, not
  -- expired and has an active seat, and then as that row's agent, bound to the row's project and
  -- sponsored by who minted it; every failure is a 401, or a 403 where such a row has no active
  -- seat.
  pub resolve_outcome :
      (store : Store) (compact : Text) (now : ℕ)
      → ResolveOutcome store compact now (resolve_agent_session_token j settings store compact now)
  resolve_outcome store compact now = resolve_cases store compact now _ refl
