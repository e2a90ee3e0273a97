-- ===== src/Meter.antt =====
-- The shared compute meter (backend/app/services/harness_meter.py): the notes on a debit row, the
-- pairing of remaining-room holds with their releases, the room that one turn may spend, and the caps
-- of an agent's seat (agent_caps.py).
pub mod Notes
pub mod Holds
pub mod Room
pub mod Caps
mod Tests
