-- ===== src/Crew/Histories.antt =====
-- What histories of calls on members, invitations, agents and tokens keep.
use opentheory.Base.{ℕ, ◌<◌, ◌≡◌, refl, ◌≢◌, Option, none, some, List, [], ◌∷◌, arith}
use opentheory.Base.Http.{Result, ok, err}
use opentheory.Ledger.Chokepoint.{ok-injective}
use mathlib.Core.Path.{subst}
use opentheory.Crew.Store.{
  InvitationStatus, pending, accepted, declined, ProjectRole, ProjectAgentStatus, Store, Acting,
  owners,
}
use opentheory.Crew.Tokens.{Jwt, Settings}
use opentheory.Crew.Step.{
  Moves, Still, StepBy, StepBy-map, Step, Step-refl, IsLive, seat_status, invitation_status,
}
use opentheory.Crew.Owners.{remove_project_member-Step}
use opentheory.Crew.Owners.Transfer.{update_project_member-Step, create_project-Step}
use opentheory.Crew.Invitations.Inviting.{
  Asks, idle, ask, ask_again, Closes, untouched, closes, Asking, Closing, create_invitation-Step,
}
use opentheory.Crew.Invitations.Closing.{accept-Step, decline-Step, revoke_invitation-Step}
use opentheory.Crew.Rostering.Deploying.{
  get_or_create-Step, deploy_project_agent-Step, patch_project_agent-Step,
}
use opentheory.Crew.Tokens.Sessions.{mint-Step, rotate-Step, revoke-Step, resolve-Step}
use opentheory.Crew.Operations.{
  Op, create, remove, change_role, invite_account, accept_invitation, decline_invitation,
  withdraw_invitation, start_crew, deploy, patch, mint, rotate, revoke_token, use_token, Call,
  store_of_ok, commit, perform, make_call, run,
}

-- The protocol of an invitation: the moves of its status that a call may make.
pub data Move : Op → ℕ → Option InvitationStatus → Option InvitationStatus → Type 0 where
  stays : {op : Op} {id : ℕ} {o : Option InvitationStatus} → Move op id o o
  asked :
      {project : ℕ} {found : Option ℕ} {role : ProjectRole} {id : ℕ}
      → Move (invite_account project found role) id none (some pending)
  asked_again :
      {project : ℕ} {found : Option ℕ} {role : ProjectRole} {id : ℕ} {closed : InvitationStatus}
      → closed ≢ pending
      → Move (invite_account project found role) id (some closed) (some pending)
  accepts : {id : ℕ} → Move (accept_invitation id) id (some pending) (some accepted)
  declines : {id : ℕ} → Move (decline_invitation id) id (some pending) (some declined)
  withdraws :
      {project id : ℕ}
      → Move (withdraw_invitation project id) id (some pending) (some InvitationStatus.revoked)

-- A trace of the protocol, one move for each call.
pub data Trace (id : ℕ)
    : List Call → Option InvitationStatus → Option InvitationStatus → Type 0 where
  ends : {o : Option InvitationStatus} → Trace id [] o o
  moves :
      {acting : Acting} {now : ℕ} {op : Op} {calls : List Call} {a b c : Option InvitationStatus}
      → Move op id a b
      → Trace id calls b c
      → Trace id (record { acting = acting; now = now; op = op } ∷ calls) a c

abbrev pub MoveOf : Op → Moves
MoveOf op id old new = Move op id old new

still-Move : (op : Op) (id : ℕ) (a b : Option InvitationStatus) → a ≡ b → Move op id a b
still-Move op id a b same = rw same stays

quiet : (op : Op) {old new : Store} → Step old new → StepBy (MoveOf op) old new
quiet op step = StepBy-map Still (MoveOf op) (still-Move op) step

Asks-Move :
    (project : ℕ) (found : Option ℕ) (role : ProjectRole) (id : ℕ) {a b : Option InvitationStatus}
    → Asks a b
    → Move (invite_account project found role) id a b
Asks-Move project found role id idle = stays
Asks-Move project found role id ask = asked
Asks-Move project found role id (ask_again closed) = asked_again closed

Closes-Move :
    (status : InvitationStatus) (named : ℕ) (op : Op)
    → Move op named (some pending) (some status)
    → (id : ℕ) {a b : Option InvitationStatus} → Closes status named id a b
    → Move op id a b
Closes-Move status named op move id untouched = stays
Closes-Move status named op move id (closes same) = rw same move

module _ (j : Jwt) (settings : Settings) where
  pub perform-Step :
      (store : Store) (acting : Acting) (now : ℕ) (op : Op) {after : Store}
      → perform j settings store acting now op ≡ ok after
      → StepBy (MoveOf op) store after
  perform-Step store acting now (create slug) h = quiet _ (create_project-Step store slug acting h)
  perform-Step store acting now (remove project account) h =
      quiet _ (remove_project_member-Step store project account acting h)
  perform-Step store acting now (change_role project account role) h =
      quiet _ (update_project_member-Step store project account role acting now h)
  perform-Step store acting now (invite_account project found role) h =
      StepBy-map Asking _ (λ id a b. Asks-Move project found role id)
        (create_invitation-Step store project found role acting h)
  perform-Step store acting now (accept_invitation id) h =
      StepBy-map (Closing accepted id) _ (λ i a b. Closes-Move accepted id _ accepts i)
        (accept-Step store id acting h)
  perform-Step store acting now (decline_invitation id) h =
      StepBy-map (Closing declined id) _ (λ i a b. Closes-Move declined id _ declines i)
        (decline-Step store id acting h)
  perform-Step store acting now (withdraw_invitation project id) h =
      StepBy-map (Closing InvitationStatus.revoked id) _
        (λ i a b. Closes-Move InvitationStatus.revoked id _ withdraws i)
        (revoke_invitation-Step store project id acting h)
  perform-Step store acting now (start_crew project) h =
      quiet _ (subst (λ s. Step store s) (ok-injective h) (get_or_create-Step store project))
  perform-Step store acting now (deploy project payload) h =
      quiet _ (deploy_project_agent-Step store project acting payload (store_of_ok _ h).1)
  perform-Step store acting now (patch project actor payload) h =
      quiet _ (patch_project_agent-Step store project actor acting payload now (store_of_ok _ h).1)
  perform-Step store acting now (mint project actor ttl) h =
      quiet _ (mint-Step j settings store project actor acting ttl now (store_of_ok _ h).1)
  perform-Step store acting now (rotate project actor jti ttl) h =
      quiet _ (rotate-Step j settings store project actor jti acting ttl now (store_of_ok _ h).1)
  perform-Step store acting now (revoke_token project actor jti) h =
      quiet _ (revoke-Step j settings store project actor jti acting now h)
  perform-Step store acting now (use_token compact) h =
      quiet _ (resolve-Step j settings store compact now (store_of_ok _ h).1)

  commit-Step :
      (store : Store) (acting : Acting) (now : ℕ) (op : Op) (r : Result Store)
      → perform j settings store acting now op ≡ r
      → StepBy (MoveOf op) store (commit store r)
  commit-Step store acting now op (err e) h = quiet op (Step-refl store)
  commit-Step store acting now op (ok after) h = perform-Step store acting now op h

  call-Step :
      (store : Store) (call : Call)
      → StepBy (MoveOf call.op) store (make_call j settings store call)
  call-Step store call = commit-Step store call.acting call.now call.op _ refl

  -- A project that has exactly one owner has exactly one after any history of calls.
  pub run_one_owner :
      (store : Store) (calls : List Call) (project : ℕ)
      → project < store.next_id
      → owners project store.members ≡ 1
      → owners project (run j settings store calls).members ≡ 1
  run_one_owner store [] project used one = one
  run_one_owner store (call ∷ calls) project used one =
      let step = call-Step store call in
      let grows = step.next_grows in
      run_one_owner (make_call j settings store call) calls project (omega arith)
        (step.owner_kept project used one)

  -- If every session token that is not revoked has an active seat, so it is after any history of
  -- calls.
  pub run-IsLive :
      (store : Store) (calls : List Call) → IsLive store → IsLive (run j settings store calls)
  run-IsLive store [] live = live
  run-IsLive store (call ∷ calls) live =
      run-IsLive (make_call j settings store call) calls ((call-Step store call).live_kept live)

  -- The seat of an actor that is revoked stays revoked along any history of calls.
  pub run_stays_revoked :
      (store : Store) (calls : List Call) (project actor : ℕ)
      → actor < store.next_id
      → seat_status project actor store.seats ≡ some ProjectAgentStatus.revoked
      → seat_status project actor (run j settings store calls).seats
        ≡ some ProjectAgentStatus.revoked
  run_stays_revoked store [] project actor used shut = shut
  run_stays_revoked store (call ∷ calls) project actor used shut =
      let step = call-Step store call in
      let grows = step.next_grows in
      run_stays_revoked (make_call j settings store call) calls project actor (omega arith)
        (step.revoked_kept project actor used shut)

  -- The status of each invitation goes through a trace of the protocol: a call moves it at most
  -- once, only the calls that ask make one pending, and only the calls that name a pending one
  -- accept, decline or withdraw it.
  pub run-Trace :
      (store : Store) (calls : List Call) (id : ℕ)
      → Trace id calls
          (invitation_status id store.invitations)
          (invitation_status id (run j settings store calls).invitations)
  run-Trace store [] id = ends
  run-Trace store (call ∷ calls) id =
      moves ((call-Step store call).moves id) (run-Trace (make_call j settings store call) calls id)
