-- ===== src/Safety.antt =====
-- safety.py: the supervisor's states, the bounded motor actions, and the gate before the backend.
pub mod State
pub mod Lease
pub mod Backend
pub mod Revocation
pub mod Gate
mod Examples
