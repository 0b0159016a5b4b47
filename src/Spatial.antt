-- ===== src/Spatial.antt =====
-- The spatial memory of memory/spatial.py: the places that are remembered and the routes between.
pub mod Places
pub mod Route
pub mod Examples
