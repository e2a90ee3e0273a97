-- ===== src/Crew/Gates.antt =====
-- backend/app/services/project_members.py: who may manage a project, and who may write in it.
use opentheory.Base.{ℕ, Bool, true, false, not, ◌&&◌, Option, none, some, ◌==◌, is_none}
use opentheory.Base.Http.{forbidden, not_found, Result, err, ◌>>◌, raise_if}
use opentheory.Ledger.Store.{ActorType, human, agent, system}
use opentheory.Crew.Store.{
  is_owner, is_active, ProjectMember, ProjectAgentMember, Store, Acting, has_project, membership,
  find_seat,
}

abbrev pub is_human : ActorType → Bool
is_human human = true
is_human _ = false

abbrev pub require_project : Store → ℕ → Result (Unit {0})
require_project store project = raise_if (not (has_project project store.projects)) not_found

-- The member found, and whether only the owner will do.
abbrev pub may_manage : Bool → Option ProjectMember → Result (Unit {0})
may_manage require_owner none = err forbidden
may_manage require_owner (some member) =
    raise_if (require_owner && not (is_owner member.role)) forbidden

abbrev pub manager : Store → ℕ → Bool → Option ℕ → Result (Unit {0})
manager store project require_owner none = err forbidden
manager store project require_owner (some account) =
    may_manage require_owner (membership project account store.members)

unfoldable pub ensure_can_manage : Store → ℕ → Acting → Bool → Result (Unit {0})
ensure_can_manage store project acting require_owner = do
  require_project store project
  raise_if (not (is_human acting.type)) forbidden
  manager store project require_owner acting.account_id

abbrev pub is_member : Store → ℕ → Option ℕ → Result (Unit {0})
is_member store project none = err forbidden
is_member store project (some account) =
    raise_if (is_none (membership project account store.members)) forbidden

abbrev pub is_rostered : Option ProjectAgentMember → Result (Unit {0})
is_rostered none = err forbidden
is_rostered (some seat) = raise_if (not (is_active seat.status)) forbidden

-- Whether the session token of the actor, if there is one, is bound to another project.
abbrev pub bound_elsewhere : ℕ → Option ℕ → Bool
bound_elsewhere project none = false
bound_elsewhere project (some bound) = not (bound == project)

abbrev pub member_by_type : Store → ℕ → Acting → ActorType → Result (Unit {0})
member_by_type store project acting human = is_member store project acting.account_id
member_by_type store project acting agent = is_rostered (find_seat project acting.id store.seats)
member_by_type store project acting system = err forbidden

unfoldable pub ensure_is_member : Store → ℕ → Acting → Result (Unit {0})
ensure_is_member store project acting = do
  require_project store project
  raise_if (bound_elsewhere project acting.token_project) forbidden
  member_by_type store project acting acting.type

abbrev pub human_member : Store → ℕ → Acting → ActorType → Result (Unit {0})
unfolding ensure_is_member
human_member store project acting human = ensure_is_member store project acting
human_member store project acting _ = do require_project store project; err forbidden

unfoldable pub ensure_is_human_member : Store → ℕ → Acting → Result (Unit {0})
unfolding human_member
ensure_is_human_member store project acting = human_member store project acting acting.type
