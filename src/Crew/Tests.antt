-- ===== src/Crew/Tests.antt =====
-- Runs of the operations on members, invitations, agents and tokens, and the theorems at concrete
-- inputs.
use opentheory.Base.{
  ℕ, zero, suc, ◌+◌, ◌≤◌, ◌≡◌, refl, Bool, true, Option, none, some, List, [], ◌∷◌, arith, ltb,
  ◌==◌, if◌then◌else◌,
}
use opentheory.Base.Http.{server_error, Result, ok, err}
use opentheory.Base.Text.{Text, codes}
use opentheory.Ledger.Store.{human, agent}
use opentheory.Crew.Store.{
  ProjectRole, owner, admin, pending, ProjectAgentStatus, active, ProjectMember, ProjectInvitation,
  AgentSessionToken, Store, Acting, find_invitation, owners,
}
use opentheory.Crew.Gates.{ensure_can_manage}
use opentheory.Crew.Roster.{
  find_research_crew_actor, revoke_live_tokens_for_actors, suspend_hits, hit_actors,
  suspend_agents_on_owner_transfer, crew_name,
}
use opentheory.Crew.Deploys.{new_seat}
use opentheory.Crew.Members.{set_member_role, update_project_member}
use opentheory.Crew.Invitations.{invite, accept, create_invitation}
use opentheory.Crew.Tokens.{
  clamp_ttl, Claims, Jwt, Settings, mint_agent_session_token, resolve_agent_session_token,
}
use opentheory.Crew.Step.{IsLive, seat_status, invitation_status}
use opentheory.Crew.Operations.{
  remove, change_role, invite_account, accept_invitation, mint, use_token, Call, run,
}
use opentheory.Crew.Histories.{run_one_owner, run-IsLive, run_stays_revoked, Trace, run-Trace}
use opentheory.Crew.Tokens.Resolving.{ResolveOutcome, resolve_outcome}
use opentheory.Crew.Tokens.Minting.{ComesBack, Standing, mint_then_resolve}
use opentheory.Crew.Owners.Handover.{HandedOver, transfer-HandedOver}
use opentheory.Crew.Invitations.Owning.{owner_invitation_fails}

abbrev result_or {ℓ} : {A : Type ℓ} → A → Result A → A
result_or default (ok value) = value
result_or default (err code) = default

-- A stand-in for the signing library: the claims in order, then the secret.
abbrev opt_code : Option ℕ → ℕ
opt_code none = 0
opt_code (some n) = suc n

abbrev code_opt : ℕ → Option ℕ
code_opt zero = none
code_opt (suc n) = some n

code_opt-opt_code : (o : Option ℕ) → code_opt (opt_code o) ≡ o
code_opt-opt_code none = refl
code_opt-opt_code (some n) = refl

abbrev plain_encode : Claims → Text → Text
plain_encode claims secret =
    (if claims.is_agent_session then 1 else 0)
    ∷ opt_code claims.sub
    ∷ opt_code claims.proj
    ∷ opt_code claims.jti
    ∷ claims.iat
    ∷ claims.exp
    ∷ []

abbrev plain_decode : Text → Text → ℕ → Option Claims
plain_decode (session ∷ sub ∷ proj ∷ jti ∷ iat ∷ exp ∷ []) secret now =
    if ltb now exp
    then some (record {
      is_agent_session = session == 1;
      sub = code_opt sub;
      proj = code_opt proj;
      jti = code_opt jti;
      iat = iat;
      exp = exp;
    })
    else none
plain_decode _ secret now = none

abbrev same_text : Text → Text
same_text text = text

abbrev always : Text → Bool
always text = true

plain_decode-encode :
    (claims : Claims) (secret : Text) (now : ℕ)
    → claims.is_agent_session ≡ true
    → claims.iat ≤ now
    → now + 1_000_000 ≤ claims.exp
    → (read : Claims) × (plain_decode (plain_encode claims secret) secret now ≡ some read)
      × (read.is_agent_session ≡ true)
      × (read.sub ≡ claims.sub)
      × (read.proj ≡ claims.proj)
      × (read.jti ≡ claims.jti)
      × (read.iat ≤ claims.iat)
plain_decode-encode claims secret now session from to =
    let fits : ltb now claims.exp ≡ true = ground arith in
    (
      claims,
      rw (
        fits,
        session,
        code_opt-opt_code claims.sub,
        code_opt-opt_code claims.proj,
        code_opt-opt_code claims.jti,
      ),
      session,
      refl,
      refl,
      refl,
      omega arith,
    )

abbrev plain : Jwt
plain = record {
  encode = plain_encode;
  decode = plain_decode;
  looks_like_agent_session = always;
  hash = same_text;
  looks-encode = λ claims secret. refl;
  decode-encode = plain_decode-encode;
}

abbrev config : Settings
config = record { secret = some (codes "s"); max_ttl = 3_600 }

abbrev member_row : ℕ → ProjectRole → ProjectMember
member_row account role = record {
  project_id = 1;
  account_id = account;
  role = role;
  invited_by_account_id = none;
}

abbrev token_row : Option ℕ → AgentSessionToken
token_row revoked_at = record {
  id = 30;
  project_id = 1;
  actor_id = 20;
  minted_by_account_id = some 10;
  minted_by_actor_id = some 5;
  token_hash = codes "h";
  expires_at = 9_000_000;
  revoked_at = revoked_at;
  last_used_at = none;
}

abbrev with_seat : ProjectAgentStatus → List AgentSessionToken → Store
with_seat status tokens = record {
  projects = record { id = 1; slug = codes "p" } ∷ [];
  members = member_row 11 admin ∷ member_row 10 owner ∷ [];
  invitations = [];
  seats = record (new_seat 1 20 (some 10) none none) { status = status } ∷ [];
  tokens = tokens;
  agents = record { id = 20; display_name = crew_name; account_id = some 10; project_id = 1 } ∷ [];
  next_id = 100;
}

abbrev staffed : Store
staffed = with_seat active (token_row none ∷ [])

abbrev person : ℕ → Acting
person account = record { id = 5; type = human; account_id = some account; token_project = none }

abbrev calls : List Call
calls =
    record { acting = person 10; now = 1; op = invite_account 1 (some 12) admin }
    ∷ record { acting = person 12; now = 2; op = accept_invitation 100 }
    ∷ record { acting = person 10; now = 3; op = mint 1 20 none }
    ∷ record { acting = person 10; now = 4; op = change_role 1 12 owner }
    ∷ record { acting = person 12; now = 5; op = remove 1 10 }
    ∷ []

run_one_owner_example : owners 1 (run plain config staffed calls).members ≡ 1
run_one_owner_example = run_one_owner plain config staffed calls 1 (omega arith) refl

run-IsLive_example : IsLive (run plain config staffed calls)
run-IsLive_example = run-IsLive plain config staffed calls ((λ live. refl), tt)

run_stays_revoked_example :
    seat_status 1 20 (run plain config (with_seat ProjectAgentStatus.revoked []) calls).seats
    ≡ some ProjectAgentStatus.revoked
run_stays_revoked_example =
    run_stays_revoked plain config (with_seat ProjectAgentStatus.revoked []) calls 1 20
      (omega arith) refl

run-Trace_example :
    Trace 100 calls none (invitation_status 100 (run plain config staffed calls).invitations)
run-Trace_example = run-Trace plain config staffed calls 100

resolve_outcome_example :
    ResolveOutcome plain config staffed
      (codes "h")
      1
      (resolve_agent_session_token plain config staffed (codes "h") 1)
resolve_outcome_example = resolve_outcome plain config staffed (codes "h") 1

abbrev minted_out : (AgentSessionToken × Text) × Store
minted_out =
    result_or ((token_row none, []), staffed)
      (mint_agent_session_token plain config staffed 1 20 (person 10) none 7)

-- The token is used, and somebody is invited.
abbrev in_between : List Call
in_between =
    record { acting = person 10; now = 7; op = use_token minted_out.0.1 }
    ∷ record { acting = person 10; now = 8; op = invite_account 1 (some 12) admin }
    ∷ []

still_standing : Standing plain config (run plain config minted_out.1 in_between) minted_out.0.0
unfolding ensure_can_manage clamp_ttl mint_agent_session_token resolve_agent_session_token
    create_invitation invite
still_standing = ((some 7, refl), refl, (_, refl), refl)

mint_then_resolve_example :
    ComesBack plain config
      (run plain config minted_out.1 in_between)
      1
      20
      (person 10)
      minted_out.0.1
      9
unfolding ensure_can_manage clamp_ttl mint_agent_session_token
mint_then_resolve_example =
    mint_then_resolve plain config staffed (run plain config minted_out.1 in_between) 1 20
      (person 10) none 7 9 {token = minted_out.0.0} refl still_standing (omega arith) (omega arith)

abbrev handed : Store
handed = result_or staffed (update_project_member staffed 1 11 owner (person 10) 6)

abbrev crew_bot : Acting
crew_bot = record { id = 20; type = agent; account_id = some 10; token_project = some 1 }

transfer-HandedOver_example : HandedOver handed 1 11 10 crew_bot
unfolding find_research_crew_actor revoke_live_tokens_for_actors suspend_hits hit_actors
    suspend_agents_on_owner_transfer ensure_can_manage set_member_role update_project_member
transfer-HandedOver_example =
    transfer-HandedOver staffed 1 11 10 (person 10) 6 crew_bot {after = handed} refl refl refl refl
      refl refl refl

abbrev invited : Store
invited = result_or staffed (create_invitation staffed 1 (some 12) owner (person 10))

owner_invitation_fails_example :
    (row : ProjectInvitation) × (find_invitation 100 invited.invitations ≡ some row)
    × (row.role ≡ owner)
    × (row.status ≡ pending)
    × (accept invited 100 (person 12) ≡ err server_error)
unfolding ensure_can_manage invite create_invitation
owner_invitation_fails_example =
    owner_invitation_fails staffed 1 12 (person 10) (person 12) {after = invited} refl refl refl
      refl refl
