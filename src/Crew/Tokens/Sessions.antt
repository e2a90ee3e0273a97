-- ===== src/Crew/Tokens/Sessions.antt =====
-- Minting, rotating, revoking and using a session token (agent_tokens.py) as steps.
use opentheory.Base.{
  ℕ, ◌+◌, ◌<◌, ◌≡◌, refl, ap, inl, inr, true, false, not, Option, none, some, List, [], ◌∷◌, arith,
  ltb, leb, ◌==◌, ==_iff, Bool-cases, is_none, All,
}
use opentheory.Base.Http.{
  forbidden, conflict, unauthorized, unavailable, ok, raise_if, or_raise, bind_ok, or_raise_ok,
  raise_if_ok, unless_ok,
}
use mathlib.Core.Path.{subst}
use opentheory.Ledger.Chokepoint.{ok-injective}
use opentheory.Base.Text.{Text, text_eq}
use opentheory.Crew.Store.{
  ProjectAgentStatus, active, suspended, is_active, ProjectAgentMember, AgentSessionToken,
  AgentActor, Store, Acting, find_seat, find_token, update_token, find_agent,
}
use opentheory.Crew.Gates.{ensure_can_manage}
use opentheory.Crew.Tokens.{
  Claims, Jwt, Settings, clamp_ttl, active_seat, Bound, minted, mint_agent_session_token, token_of,
  revoke_at, rotate_agent_session_token, revoke_agent_session_token, live_row, seat_is_active, bind,
  skew, resolve_agent_session_token,
}
use opentheory.Crew.Step.{
  seat_status, status_of_seat, IsBacked, Step, Step-refl, Step-trans, seats-Step,
}

-- A write to a token that leaves its project and actor alone and revives nothing.
abbrev Weakens : List ProjectAgentMember → (AgentSessionToken → AgentSessionToken) → Type 0
Weakens seats change = (row : AgentSessionToken) → IsBacked seats row → IsBacked seats (change row)

update_token-IsBacked :
    (seats : List ProjectAgentMember) (id : ℕ) (change : AgentSessionToken → AgentSessionToken)
    → Weakens seats change
    → (tokens : List AgentSessionToken) → All (IsBacked seats) tokens
    → All (IsBacked seats) (update_token id change tokens)
update_token-IsBacked seats id change weak [] backed = tt
update_token-IsBacked seats id change weak (first ∷ tokens) backed =
    elim (Bool-cases (first.id == id)) [
      | inl here ↦ rw here (weak first backed.0, backed.1)
      | inr there ↦ rw there (backed.0, update_token-IsBacked seats id change weak tokens backed.1)
    ]

update_token-Step :
    (store : Store) (id : ℕ) (change : AgentSessionToken → AgentSessionToken)
    → Weakens store.seats change
    → Step store (record store { tokens = update_token id change store.tokens })
update_token-Step store id change weak =
    seats-Step store store.seats _ store.agents store.next_id (omega arith) (λ p a used shut. shut)
      (update_token-IsBacked store.seats id change weak store.tokens)

is_active_iff : (status : ProjectAgentStatus) → is_active status ≡ true → status ≡ active
is_active_iff active h = refl
is_active_iff suspended h = cc
is_active_iff ProjectAgentStatus.revoked h = cc

active_seat_ok :
    (o : Option ProjectAgentMember) {x : Unit {0}}
    → active_seat o ≡ ok x
    → status_of_seat o ≡ some active
active_seat_ok none h = cc
active_seat_ok (some seat) h =
    ap (λ (s : ProjectAgentStatus). some s) (is_active_iff seat.status (unless_ok _ forbidden h))

is_none_iff {ℓ} : {A : Type ℓ} (o : Option A) → is_none o ≡ true → o ≡ none
is_none_iff none h = refl
is_none_iff (some a) h = cc

module _ (j : Jwt) (settings : Settings) where
  pub seat_is_active_ok :
      (o : Option ProjectAgentMember) {x : Unit {0}}
      → seat_is_active j settings o ≡ ok x
      → status_of_seat o ≡ some active
  seat_is_active_ok none h = cc
  seat_is_active_ok (some seat) h =
      ap (λ (s : ProjectAgentStatus). some s) (is_active_iff seat.status (unless_ok _ forbidden h))

  -- The steps of a mint that passed.
  pub mint_checks :
      (store : Store) (project actor : ℕ) (acting : Acting) (ttl : Option ℕ) (now : ℕ)
      {out : (AgentSessionToken × Text) × Store}
      → mint_agent_session_token j settings store project actor acting ttl now ≡ ok out
      → (secret : Text) × (account seconds : ℕ) × (settings.secret ≡ some secret)
        × (acting.account_id ≡ some account)
        × (seat_status project actor store.seats ≡ some active)
        × (clamp_ttl settings ttl ≡ ok seconds)
        × (minted j settings store project actor account acting now secret seconds ≡ out)
  unfolding mint_agent_session_token
  mint_checks store project actor acting ttl now h =
      let c1 = bind_ok (or_raise settings.secret unavailable) _ h in
      let c2 = bind_ok (ensure_can_manage store project acting true) _ c1.2 in
      let c3 = bind_ok (or_raise acting.account_id forbidden) _ c2.2 in
      let c4 = bind_ok (active_seat (find_seat project actor store.seats)) _ c3.2 in
      let c5 = bind_ok (clamp_ttl settings ttl) _ c4.2 in
      (
        c1.0,
        c3.0,
        c5.0,
        or_raise_ok _ unavailable c1.1,
        or_raise_ok _ forbidden c3.1,
        active_seat_ok (find_seat project actor store.seats) c4.1,
        c5.1,
        ok-injective c5.2,
      )

  pub mint-Step :
      (store : Store) (project actor : ℕ) (acting : Acting) (ttl : Option ℕ) (now : ℕ)
      {out : (AgentSessionToken × Text) × Store}
      → mint_agent_session_token j settings store project actor acting ttl now ≡ ok out
      → Step store out.1
  mint-Step store project actor acting ttl now h =
      let m = mint_checks store project actor acting ttl now h in
      subst (λ (o : (AgentSessionToken × Text) × Store). Step store o.1) m.7
        (seats-Step store store.seats _ store.agents (store.next_id + 1) (omega arith)
          (λ p a used shut. shut) (λ live. ((λ unrevoked. m.5), live)))

  pub rotate-Step :
      (store : Store) (project actor jti : ℕ) (acting : Acting) (ttl : Option ℕ) (now : ℕ)
      {out : (AgentSessionToken × Text) × Store}
      → rotate_agent_session_token j settings store project actor jti acting ttl now ≡ ok out
      → Step store out.1
  unfolding rotate_agent_session_token
  rotate-Step store project actor jti acting ttl now h =
      let c1 = bind_ok (ensure_can_manage store project acting true) _ h in
      let c2 = bind_ok (token_of j settings project actor (find_token jti store.tokens)) _ c1.2 in
      let c3 = bind_ok (raise_if (not (is_none c2.0.revoked_at)) conflict) _ c2.2 in
      Step-trans
        (update_token-Step store jti (revoke_at j settings now) (λ row backed unrevoked. cc))
        (mint-Step
          (record store { tokens = update_token jti (revoke_at j settings now) store.tokens })
          project actor acting ttl now c3.2)

  pub revoke-Step :
      (store : Store) (project actor jti : ℕ) (acting : Acting) (now : ℕ) {after : Store}
      → revoke_agent_session_token j settings store project actor jti acting now ≡ ok after
      → Step store after
  unfolding revoke_agent_session_token
  revoke-Step store project actor jti acting now h =
      let c1 = bind_ok (ensure_can_manage store project acting true) _ h in
      let c2 = bind_ok (token_of j settings project actor (find_token jti store.tokens)) _ c1.2 in
      subst (λ s. Step store s) (ok-injective c2.2)
        (elim (Bool-cases (is_none c2.0.revoked_at)) [
          | inl live ↦
              rw live (
                update_token-Step store jti (revoke_at j settings now) (λ row backed unrevoked. cc))
          | inr dead ↦ rw dead (Step-refl store)
        ])

  -- A row that passes the checks on the token's claims.
  abbrev pub Admits : ℕ → ℕ → Text → ℕ → AgentSessionToken → Type 0
  Admits sub proj hash now row =
      (text_eq row.token_hash hash ≡ true)
      × (row.actor_id ≡ sub)
      × (row.project_id ≡ proj)
      × (row.revoked_at ≡ none)
      × (now < row.expires_at)

  pub live_row_ok :
      (sub proj : ℕ) (hash : Text) (now : ℕ) (o : Option AgentSessionToken)
      {row : AgentSessionToken}
      → live_row j settings sub proj hash now o ≡ ok row
      → (o ≡ some row) × Admits sub proj hash now row
  live_row_ok sub proj hash now none h = cc
  live_row_ok sub proj hash now (some old) h =
      let c1 = bind_ok (raise_if (not (text_eq old.token_hash hash)) unauthorized) _ h in
      let c2 = bind_ok (raise_if (not (old.actor_id == sub)) unauthorized) _ c1.2 in
      let c3 = bind_ok (raise_if (not (old.project_id == proj)) unauthorized) _ c2.2 in
      let c4 = bind_ok (raise_if (not (is_none old.revoked_at)) unauthorized) _ c3.2 in
      let c5 = bind_ok (raise_if (leb old.expires_at now) unauthorized) _ c4.2 in
      let same = ok-injective c5.2 in
      (
        ap (λ r. some r) same,
        subst (λ r. Admits sub proj hash now r) same
            (
              unless_ok _ unauthorized c1.1,
              (==_iff _ _).0 (unless_ok _ unauthorized c2.1),
              (==_iff _ _).0 (unless_ok _ unauthorized c3.1),
              is_none_iff old.revoked_at (unless_ok _ unauthorized c4.1),
              (let late : leb old.expires_at now ≡ false = raise_if_ok _ unauthorized c5.1 in
                  ground arith),
            ),
      )

  -- What a session that was resolved passed.
  pub resolve_checks :
      (store : Store) (compact : Text) (now : ℕ) {out : Bound × Store}
      → resolve_agent_session_token j settings store compact now ≡ ok out
      → (secret : Text) × (claims : Claims) × (jti sub proj : ℕ) × (row : AgentSessionToken)
        × (actor : AgentActor) × (settings.secret ≡ some secret)
        × (j.decode compact secret now ≡ some claims)
        × (find_token jti store.tokens ≡ some row)
        × Admits sub proj (j.hash compact) now row
        × (find_agent row.actor_id store.agents ≡ some actor)
        × (seat_status row.project_id row.actor_id store.seats ≡ some active)
        × ((
          bind j settings actor row,
          record store {
            tokens =
                update_token row.id
                  (λ token. record token { last_used_at = some now })
                  store.tokens;
          },
        )
            ≡ out)
  unfolding resolve_agent_session_token
  resolve_checks store compact now h =
      let c1 = bind_ok (raise_if (not (j.looks_like_agent_session compact)) unauthorized) _ h in
      let c2 = bind_ok (or_raise settings.secret unauthorized) _ c1.2 in
      let c3 = bind_ok (or_raise (j.decode compact c2.0 now) unauthorized) _ c2.2 in
      let c4 = bind_ok (raise_if (not c3.0.is_agent_session) unauthorized) _ c3.2 in
      let c5 = bind_ok (raise_if (ltb (now + skew j settings) c3.0.iat) unauthorized) _ c4.2 in
      let c6 = bind_ok (or_raise c3.0.jti unauthorized) _ c5.2 in
      let c7 = bind_ok (or_raise c3.0.sub unauthorized) _ c6.2 in
      let c8 = bind_ok (or_raise c3.0.proj unauthorized) _ c7.2 in
      let c9 =
        bind_ok (live_row j settings c7.0 c8.0 (j.hash compact) now (find_token c6.0 store.tokens))
          _ c8.2 in
      let c10 = bind_ok (or_raise (find_agent c9.0.actor_id store.agents) unauthorized) _ c9.2 in
      let c11 =
        bind_ok (seat_is_active j settings (find_seat c9.0.project_id c9.0.actor_id store.seats)) _
          c10.2 in
      let live = live_row_ok c7.0 c8.0 (j.hash compact) now (find_token c6.0 store.tokens) c9.1 in
      (
        c2.0,
        c3.0,
        c6.0,
        c7.0,
        c8.0,
        c9.0,
        c10.0,
        or_raise_ok _ unauthorized c2.1,
        or_raise_ok _ unauthorized c3.1,
        live.0,
        live.1,
        or_raise_ok _ unauthorized c10.1,
        seat_is_active_ok (find_seat c9.0.project_id c9.0.actor_id store.seats) c11.1,
        ok-injective c11.2,
      )

  pub resolve-Step :
      (store : Store) (compact : Text) (now : ℕ) {out : Bound × Store}
      → resolve_agent_session_token j settings store compact now ≡ ok out
      → Step store out.1
  resolve-Step store compact now h =
      let checks = resolve_checks store compact now h in
      subst (λ (o : Bound × Store). Step store o.1) checks.13
        (update_token-Step store checks.5.id (λ token. record token { last_used_at = some now })
          (λ row backed. backed))
