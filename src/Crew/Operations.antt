-- ===== src/Crew/Operations.antt =====
-- The calls that the API makes on a project's members, invitations, agents and session tokens, and
-- histories of them.
use opentheory.Base.{ℕ, ◌≡◌, Option, List, [], ◌∷◌}
use opentheory.Base.Http.{Result, ok, err}
use opentheory.Base.Text.{Text}
use opentheory.Crew.Store.{ProjectRole, Store, Acting}
use opentheory.Crew.Deploys.{
  AgentDeployRequest, AgentRosterPatch, get_or_create_project_agent_actor, deploy_project_agent,
  patch_project_agent,
}
use opentheory.Crew.Members.{remove_project_member, update_project_member, create_project}
use opentheory.Crew.Invitations.{create_invitation, accept, decline, revoke_invitation}
use opentheory.Crew.Tokens.{
  Jwt, Settings, mint_agent_session_token, rotate_agent_session_token, revoke_agent_session_token,
  resolve_agent_session_token,
}

-- `start_crew` is the call of `get_or_create_project_agent_actor` with which a pass starts.
pub data Op : Type 0 where
  create : Text → Op
  remove : ℕ → ℕ → Op
  change_role : ℕ → ℕ → ProjectRole → Op
  invite_account : ℕ → Option ℕ → ProjectRole → Op
  accept_invitation : ℕ → Op
  decline_invitation : ℕ → Op
  withdraw_invitation : ℕ → ℕ → Op
  start_crew : ℕ → Op
  deploy : ℕ → AgentDeployRequest → Op
  patch : ℕ → ℕ → AgentRosterPatch → Op
  mint : ℕ → ℕ → Option ℕ → Op
  rotate : ℕ → ℕ → ℕ → Option ℕ → Op
  revoke_token : ℕ → ℕ → ℕ → Op
  use_token : Text → Op

-- A call, with who makes it and when.
pub record Call : Type 0 where
  pub acting : Acting
  pub now : ℕ
  pub op : Op

abbrev pub store_of {ℓ} : {A : Type ℓ} → Result (A × Store) → Result Store
store_of (ok (a, store)) = ok store
store_of (err e) = err e

-- A call that raises commits nothing.
abbrev pub commit : Store → Result Store → Store
commit store (ok after) = after
commit store (err e) = store

pub store_of_ok {ℓ} :
    {A : Type ℓ} (r : Result (A × Store)) {store : Store}
    → store_of r ≡ ok store
    → (a : A) × (r ≡ ok (a, store))
store_of_ok (ok (a, after)) h = (a, cc)
store_of_ok (err e) h = cc

module _ (j : Jwt) (settings : Settings) where
  abbrev pub perform : Store → Acting → ℕ → Op → Result Store
  perform store acting now (create slug) = create_project store slug acting
  perform store acting now (remove project account) =
      remove_project_member store project account acting
  perform store acting now (change_role project account role) =
      update_project_member store project account role acting now
  perform store acting now (invite_account project found role) =
      create_invitation store project found role acting
  perform store acting now (accept_invitation id) = accept store id acting
  perform store acting now (decline_invitation id) = decline store id acting
  perform store acting now (withdraw_invitation project id) =
      revoke_invitation store project id acting
  perform store acting now (start_crew project) =
      ok (get_or_create_project_agent_actor store project).1
  perform store acting now (deploy project payload) =
      store_of (deploy_project_agent store project acting payload)
  perform store acting now (patch project actor payload) =
      store_of (patch_project_agent store project actor acting payload now)
  perform store acting now (mint project actor ttl) =
      store_of (mint_agent_session_token j settings store project actor acting ttl now)
  perform store acting now (rotate project actor jti ttl) =
      store_of (rotate_agent_session_token j settings store project actor jti acting ttl now)
  perform store acting now (revoke_token project actor jti) =
      revoke_agent_session_token j settings store project actor jti acting now
  perform store acting now (use_token compact) =
      store_of (resolve_agent_session_token j settings store compact now)

  abbrev pub make_call : Store → Call → Store
  make_call store call = commit store (perform store call.acting call.now call.op)

  abbrev pub run : Store → List Call → Store
  run store [] = store
  run store (call ∷ calls) = run (make_call store call) calls
