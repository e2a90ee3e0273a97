-- ===== src/Crew/Tokens/Minting.antt =====
-- A token that was minted and comes back (agent_tokens.py: mint_agent_session_token and
-- resolve_agent_session_token).
use opentheory.Base.{
  ℕ, ◌+◌, ◌*◌, ◌≤◌, ◌≡◌, refl, sym, ap, true, false, Option, none, some, arith, ltb, leb, ==_refl,
}
use opentheory.Base.Http.{ok}
use mathlib.Core.Path.{subst}
use opentheory.Base.Text.{Text, text_eq_refl}
use opentheory.Ledger.Store.{agent}
use opentheory.Crew.Store.{
  active, ProjectAgentMember, AgentSessionToken, AgentActor, Store, Acting, find_seat, find_token,
  update_token, find_agent,
}
use opentheory.Crew.Tokens.{
  Claims, Jwt, Settings, Bound, minted, mint_agent_session_token, seat_is_active, bind,
  resolve_agent_session_token,
}
use opentheory.Crew.Step.{seat_status, status_of_seat}
use opentheory.Crew.Tokens.Sessions.{mint_checks}
use opentheory.Crew.Tokens.Resolving.{find_agent-id}

module _ (j : Jwt) (settings : Settings) where
  seat_is_active-active :
      (o : Option ProjectAgentMember)
      → status_of_seat o ≡ some active
      → seat_is_active j settings o ≡ ok tt
  seat_is_active-active none h = cc
  seat_is_active-active (some seat) h = (let is : seat.status ≡ active = cc in rw is)

  -- What comes back of a token that is presented while it lives.
  abbrev pub ComesBack : Store → ℕ → ℕ → Acting → Text → ℕ → Type 0
  ComesBack store project actor acting compact now =
      (bound : Bound) × (after : Store) × (resolve_agent_session_token j settings store compact now
        ≡ ok (bound, after))
      × (bound.acting.id ≡ actor)
      × (bound.acting.type ≡ agent)
      × (bound.acting.token_project ≡ some project)
      × (bound.sponsored_by ≡ some acting.id)

  -- The token's row is still there and not revoked, used or not, its agent has an actor row, and the
  -- seat is active.
  abbrev pub Standing : Store → AgentSessionToken → Type 0
  Standing store token =
      ((used : Option ℕ) × (find_token token.id store.tokens
          ≡ some (record token { last_used_at = used })))
      × (token.revoked_at ≡ none)
      × ((row : AgentActor) × (find_agent token.actor_id store.agents ≡ some row))
      × (seat_status token.project_id token.actor_id store.seats ≡ some active)

  minted-ComesBack :
      (store late : Store) (project actor account : ℕ) (acting : Acting) (now later : ℕ)
      (secret : Text) (seconds : ℕ)
      → settings.secret ≡ some secret
      → Standing late (minted j settings store project actor account acting now secret seconds).0.0
      → now ≤ later
      → later + 1_000_000 ≤ now + seconds * 1_000_000
      → ComesBack late project actor acting
          (minted j settings store project actor account acting now secret seconds).0.1
          later
  unfolding resolve_agent_session_token
  minted-ComesBack store late project actor account acting now later secret seconds known
        (stored, unrevoked, (row, found), seated) from to =
      let claims : Claims = record {
        is_agent_session = true;
        sub = some actor;
        proj = some project;
        jti = some store.next_id;
        iat = now;
        exp = now + seconds * 1_000_000;
      } in
      let (read, decoded, session, sub, proj, jti, iat) =
        j.decode-encode claims secret later refl from to in
      let fresh : ltb (later + 60_000_000) read.iat ≡ false = ground arith in
      let live : leb (now + seconds * 1_000_000) later ≡ false = ground arith in
      let out = minted j settings store project actor account acting now secret seconds in
      let (used, there) = stored in
      (
        bind j settings row out.0.0,
        record late {
          tokens =
              update_token out.0.0.id (λ token. record token { last_used_at = some later })
                late.tokens;
        },
        rw
            (
              j.looks-encode claims secret,
              known,
              decoded,
              session,
              fresh,
              jti,
              sub,
              proj,
              there,
              text_eq_refl,
              ==_refl actor,
              ==_refl project,
              live,
              found,
              seat_is_active-active (find_seat project actor late.seats) seated,
            )
            refl,
        find_agent-id actor late.agents found,
        refl,
        refl,
        refl,
      )

  -- A token that was minted is let in, as its agent, bound to its project and sponsored by who minted
  -- it, at any time from then until a second before it expires and whatever happened in between, as
  -- long as its row is there and not revoked, its agent has an actor row and the agent's seat is active.
  pub mint_then_resolve :
      (store late : Store) (project actor : ℕ) (acting : Acting) (ttl : Option ℕ) (now later : ℕ)
      {token : AgentSessionToken} {compact : Text} {after : Store}
      → mint_agent_session_token j settings store project actor acting ttl now
        ≡ ok ((token, compact), after)
      → Standing late token
      → now ≤ later
      → later + 1_000_000 ≤ token.expires_at
      → ComesBack late project actor acting compact later
  mint_then_resolve store late project actor acting ttl now later {token} {compact} {after} h
        standing from to =
      let m = mint_checks j settings store project actor acting ttl now h in
      let e : minted j settings store project actor m.1 acting now m.0 m.2
          ≡ ((token, compact), after) =
        m.7 in
      let expires : now + m.2 * 1_000_000 ≡ token.expires_at =
        ap (λ (o : (AgentSessionToken × Text) × Store). o.0.0.expires_at) e in
      let stands : Standing late
          (minted j settings store project actor m.1 acting now m.0 m.2).0.0 =
        subst (λ (o : (AgentSessionToken × Text) × Store). Standing late o.0.0) (sym e) standing in
      subst
        (λ (o : (AgentSessionToken × Text) × Store).
          ComesBack late project actor acting o.0.1 later)
        e
        (minted-ComesBack store late project actor m.1 acting now later m.0 m.2 m.3 stands from
          (omega arith))
