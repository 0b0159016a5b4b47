-- ===== src/Operator.antt =====
-- The bounds on what one operator request may do.
pub mod Message
pub mod Budget
pub mod Fence
mod Examples
