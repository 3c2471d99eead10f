-- ===== src/Action.antt =====
-- The action client: aioros/abc/_action.py and aioros/_node/_action/.
pub mod States
pub mod Machine
pub mod Progress
pub mod Raises
pub mod Tracking
pub mod Delivery
pub mod Messages
pub mod Faults
pub mod Taken
mod Examples
