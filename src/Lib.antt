-- ===== src/Lib.antt =====
-- OpenTheory's backend: the research ledger, the people and agents who may write in it, the grades that
-- evidence earns, the budget of the agents that do the research, and the handles of accounts. Paths
-- below are from the repository's root.
--
-- The parts and how they interact. A project is a graph of immutable checkpoints. Every write of the
-- ledger goes through one function, `create_checkpoint`, which checks that the rows it is given belong
-- to the project, adds the checkpoint with its parents and references, and credits the author.
-- Forking a line, closing it, merging lines and tagging a checkpoint prepare their own rows and then
-- call it in the same transaction. Runs of instruments are linked to claims as evidence; the grade of
-- a run is read off a matrix, and the grades of a claim's links decide its headline. An agent's turn
-- holds tokens before it calls a model and releases them afterwards; the room that is left clamps the
-- turn, and the notes on the ledger rows are the only record of what was held. A pass holds a slice
-- of the project's money before it starts, and its debit replaces the hold. The diff of two tips
-- compares what their ancestors recorded. Every write passes a gate of the project's members: humans
-- by their membership, agents by an active seat that a session token binds them to; a transfer of
-- ownership suspends the seats of the owner who leaves.
--
--   Ledger/Store          the rows of backend/app/models as records, lists of them newest first
--   Ledger/Checkpoints    backend/app/services/checkpoints.py (and record_contribution)
--   Ledger/Branches       backend/app/services/branches.py
--   Ledger/Merges         backend/app/services/merges.py
--   Ledger/Tags           backend/app/services/tags.py
--   Ledger/Operations     the calls, and histories of calls in which a failed one commits nothing
--   Ledger/Advance        the contract of every call; Sealing and Steps hold the lemmas for it
--   Ledger/Validity       the invariant of the ledger; Immutable is about old rows
--   Ledger/Outcomes       when each operation succeeds and what it leaves
--   Evidence/Grading      backend/app/toolbench/grading.py; Ladder and Strongest are about it
--   Evidence/Grounding    backend/app/services/grounding.py, one claim; Sides and Headlines
--   Evidence/Yield        backend/app/services/grounding.py, a pass and a rollup; Counts, Movements
--                         and Reports are about it
--   Meter/Notes           the notes of backend/app/services/harness_meter.py, written and read
--   Meter/Holds           its pairing of holds and releases
--   Meter/Room            its clamps, budget states, TTL cover and process integers
--   Meter/Caps            backend/app/services/agent_caps.py; Fitting is about the caps of a seat
--   Crew/Store            the rows behind a project's members, invitations, agents and tokens
--   Crew/Gates            the gates of backend/app/services/project_members.py
--   Crew/Members          its removal and change of role, and the owner row of projects.py
--   Crew/Invitations      backend/app/services/invitations.py; Owning is about one that fails
--   Crew/Roster, Deploys  backend/app/services/agent_roster.py and agent_actors.py
--   Crew/Tokens           backend/app/services/agent_tokens.py; Resolving and Minting
--   Crew/Operations       the calls on these rows; Histories has what they keep, Step the contract
--                         that Owners, Seats and Rostering prove of each call
--   Compute/Pricing       the rates of backend/app/agent/pricing.py and services/compute.py
--   Compute/Budget        the rest of compute.py, with the sums of funding.py; Solvency is about it
--   Compute/Turns         what a clamped turn of backend/app/harness/session.py costs
--   Diff/Ancestry         backend/app/services/diff.py: closures and merge bases; Walks and Bases
--   Diff/Claims, Changes  its claims and semantic_diff, with compute_signal of claims.py; Forward
--   Diff/Refs             its resolve_ref, over the rows of the ledger; Placing is about it
--   Usernames             backend/app/core/usernames.py
--   Base                  Python's text and integers, lists, and HTTP errors as results
--
-- How the code is translated. A database session is a value of type `Db`. An `HTTPException` is an
-- `err` that carries the status code, and since each service commits once, at its end, a call that
-- raises leaves the caller with the rows it had. An id is a natural number, and a fresh one is the
-- value of a counter: what the code relies on is that a new UUID is the id of no row. The textual
-- form of a UUID is a parameter of the meter, a record of `str` and `UUID(...)` with the law that
-- parsing what was printed gives the id back and that printed ids are plain text. The lowering of a
-- `str` is a parameter too, and so are PyJWT and the `UUID(...)` that reads a ref. A Python `str`
-- is the list of its code points where its contents matter. An `int` is an integer without bounds;
-- money is in millionths of a dollar, time in microseconds. Every loop is over a list but one: the
-- walk over ancestors runs on fuel, two more than the map has edges. That is enough since a
-- checkpoint puts its parents on the stack once, when it is first seen.
--
-- What is not modelled: reads for display (`_enrich`, the list and detail reads), the SQL of the
-- loaders, two sessions racing on one row, the free-form JSON of a checkpoint beyond the fields the
-- services put there; the price client, agent passes, the instruments, the runtime of the harness,
-- most HTTP routes and the frontend.
pub mod Base
pub mod Meter
pub mod Ledger
pub mod Evidence
pub mod Usernames
pub mod Crew
pub mod Compute
pub mod Diff
