-- ===== src/Crew/Tokens.antt =====
-- backend/app/services/agent_tokens.py: minting, rotating, revoking and resolving the session tokens
-- of agents. PyJWT and SHA-256 are a parameter, times are in microseconds, and a length of life below
-- 0 is read as 0, which the same test refuses.
use opentheory.Base.{
  ℕ, ◌+◌, ◌-◌, ◌*◌, ◌/◌, ◌≤◌, ◌≡◌, Bool, true, not, ◌&&◌, Option, none, some, ◌∷◌, ltb, leb, ◌==◌,
  if◌then◌else◌, is_none, length,
}
use opentheory.Base.Http.{
  ◌>>=◌, ◌>>◌, forbidden, not_found, conflict, unprocessable, unauthorized, unavailable, Result, ok,
  err, raise_if, or_raise,
}
use opentheory.Base.Text.{Text, text_eq}
use opentheory.Ledger.Store.{agent}
use opentheory.Crew.Store.{
  is_active, ProjectAgentMember, AgentSessionToken, AgentActor, Store, Acting, find_seat,
  find_token, update_token, find_agent,
}
use opentheory.Crew.Gates.{ensure_can_manage}
pub mod Sessions
pub mod Resolving
pub mod Minting

-- What a compact token says; a claim that is no UUID is `none`.
pub record Claims : Type 0 where
  pub is_agent_session : Bool
  pub sub : Option ℕ
  pub proj : Option ℕ
  pub jti : Option ℕ
  pub iat : ℕ
  pub exp : ℕ

-- `jwt` and `hashlib`: what is signed with a secret decodes with it, from the second it was signed
-- in to the second before it expires, to the same ids and to a time that is not later (PyJWT writes
-- whole seconds); a token that was encoded here looks like one.
pub record Jwt : Type 0 where
  pub encode : Claims → Text → Text
  pub decode : Text → Text → ℕ → Option Claims
  pub looks_like_agent_session : Text → Bool
  pub hash : Text → Text
  pub looks-encode :
      (claims : Claims) (secret : Text) → looks_like_agent_session (encode claims secret) ≡ true
  pub decode-encode :
      (claims : Claims) (secret : Text) (now : ℕ)
      → claims.is_agent_session ≡ true
      → claims.iat ≤ now
      → now + 1_000_000 ≤ claims.exp
      → (read : Claims) × (decode (encode claims secret) secret now ≡ some read)
        × (read.is_agent_session ≡ true)
        × (read.sub ≡ claims.sub)
        × (read.proj ≡ claims.proj)
        × (read.jti ≡ claims.jti)
        × (read.iat ≤ claims.iat)

-- `settings.agent_session_jwt_secret`, stripped, and `settings.agent_session_max_ttl_seconds`.
pub record Settings : Type 0 where
  pub secret : Option Text
  pub max_ttl : ℕ

abbrev pub default_ttl : ℕ
default_ttl = 2_592_000

abbrev pub min_ttl : ℕ → ℕ → ℕ
min_ttl a b = if leb a b then a else b

abbrev pub requested_ttl : ℕ → Option ℕ → ℕ
requested_ttl max_ttl none = min_ttl default_ttl max_ttl
requested_ttl max_ttl (some ttl) = ttl

-- `_clamp_ttl`
unfoldable pub clamp_ttl : Settings → Option ℕ → Result ℕ
clamp_ttl settings ttl = do
  raise_if (ltb settings.max_ttl 1) unavailable
  let requested = requested_ttl settings.max_ttl ttl
  raise_if (ltb requested 1) unprocessable
  raise_if (ltb settings.max_ttl requested) unprocessable
  ok requested

abbrev pub active_seat : Option ProjectAgentMember → Result (Unit {0})
active_seat none = err not_found
active_seat (some seat) = raise_if (not (is_active seat.status)) forbidden

-- What `resolve_agent_session_token` returns: the agent's actor, bound to the token's project, and
-- the human who answers for it.
pub record Bound : Type 0 where
  pub acting : Acting
  pub sponsored_by : Option ℕ
  pub token_jti : ℕ

module _ (j : Jwt) (settings : Settings) where
  abbrev pub minted : Store → ℕ → ℕ → ℕ → Acting → ℕ → Text → ℕ → (AgentSessionToken × Text) × Store
  minted store project actor account acting now secret ttl =
      let expires = now + ttl * 1_000_000 in
      let claims : Claims = record {
        is_agent_session = true;
        sub = some actor;
        proj = some project;
        jti = some store.next_id;
        iat = now;
        exp = expires;
      } in
      let compact = j.encode claims secret in
      let token : AgentSessionToken = record {
        id = store.next_id;
        project_id = project;
        actor_id = actor;
        minted_by_account_id = some account;
        minted_by_actor_id = some acting.id;
        token_hash = j.hash compact;
        expires_at = expires;
        revoked_at = none;
        last_used_at = none;
      } in
      (
        (token, compact),
        record store { tokens = token ∷ store.tokens; next_id = store.next_id + 1 },
      )

  unfoldable pub mint_agent_session_token :
      Store → ℕ → ℕ → Acting → Option ℕ → ℕ → Result ((AgentSessionToken × Text) × Store)
  mint_agent_session_token store project actor acting ttl now = do
    secret ← or_raise settings.secret unavailable
    ensure_can_manage store project acting true
    account ← or_raise acting.account_id forbidden
    active_seat (find_seat project actor store.seats)
    seconds ← clamp_ttl settings ttl
    ok (minted store project actor account acting now secret seconds)

  abbrev pub token_of : ℕ → ℕ → Option AgentSessionToken → Result AgentSessionToken
  token_of project actor none = err not_found
  token_of project actor (some token) = do
    raise_if (not (token.project_id == project && token.actor_id == actor)) not_found
    ok token

  abbrev pub revoke_at : ℕ → AgentSessionToken → AgentSessionToken
  revoke_at now token = record token { revoked_at = some now }

  unfoldable pub rotate_agent_session_token :
      Store → ℕ → ℕ → ℕ → Acting → Option ℕ → ℕ → Result ((AgentSessionToken × Text) × Store)
  rotate_agent_session_token store project actor jti acting ttl now = do
    ensure_can_manage store project acting true
    existing ← token_of project actor (find_token jti store.tokens)
    raise_if (not (is_none existing.revoked_at)) conflict
    mint_agent_session_token
        (record store { tokens = update_token jti (revoke_at now) store.tokens }) project actor
        acting ttl now

  unfoldable pub revoke_agent_session_token : Store → ℕ → ℕ → ℕ → Acting → ℕ → Result Store
  revoke_agent_session_token store project actor jti acting now = do
    ensure_can_manage store project acting true
    existing ← token_of project actor (find_token jti store.tokens)
    ok (
        if is_none existing.revoked_at
        then record store { tokens = update_token jti (revoke_at now) store.tokens }
        else store)

  -- The row that the claims name, if it is theirs, live and not expired.
  abbrev pub live_row : ℕ → ℕ → Text → ℕ → Option AgentSessionToken → Result AgentSessionToken
  live_row sub proj hash now none = err unauthorized
  live_row sub proj hash now (some row) = do
    raise_if (not (text_eq row.token_hash hash)) unauthorized
    raise_if (not (row.actor_id == sub)) unauthorized
    raise_if (not (row.project_id == proj)) unauthorized
    raise_if (not (is_none row.revoked_at)) unauthorized
    raise_if (leb row.expires_at now) unauthorized
    ok row

  abbrev pub seat_is_active : Option ProjectAgentMember → Result (Unit {0})
  seat_is_active none = err forbidden
  seat_is_active (some seat) = raise_if (not (is_active seat.status)) forbidden

  -- `bind_agent_session`
  abbrev pub bind : AgentActor → AgentSessionToken → Bound
  bind actor row = record {
    acting = record {
      id = actor.id;
      type = agent;
      account_id = actor.account_id;
      token_project = some row.project_id;
    };
    sponsored_by = row.minted_by_actor_id;
    token_jti = row.id;
  }

  abbrev pub skew : ℕ
  skew = 60_000_000

  unfoldable pub resolve_agent_session_token : Store → Text → ℕ → Result (Bound × Store)
  resolve_agent_session_token store compact now = do
    raise_if (not (j.looks_like_agent_session compact)) unauthorized
    secret ← or_raise settings.secret unauthorized
    claims ← or_raise (j.decode compact secret now) unauthorized
    raise_if (not claims.is_agent_session) unauthorized
    raise_if (ltb (now + skew) claims.iat) unauthorized
    jti ← or_raise claims.jti unauthorized
    sub ← or_raise claims.sub unauthorized
    proj ← or_raise claims.proj unauthorized
    row ← live_row sub proj (j.hash compact) now (find_token jti store.tokens)
    actor ← or_raise (find_agent row.actor_id store.agents) unauthorized
    seat_is_active (find_seat row.project_id row.actor_id store.seats)
    let used = update_token row.id (λ token. record token { last_used_at = some now }) store.tokens
    ok (bind actor row, record store { tokens = used })
