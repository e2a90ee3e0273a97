-- ===== src/Crew.antt =====
-- Who may act in a project (backend/app/services/project_members.py, invitations.py,
-- agent_roster.py, agent_actors.py and agent_tokens.py): its members, the agents on its roster and
-- the session tokens that the agents carry.
pub mod Store
pub mod Gates
pub mod Roster
pub mod Deploys
pub mod Members
pub mod Invitations
pub mod Tokens
pub mod Operations
pub mod Histories
mod Tests
pub mod Step
pub mod Seats
pub mod Rostering
pub mod Owners
