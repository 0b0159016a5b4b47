-- ===== src/Plan.antt =====
-- The plan graph of plan_graph.py: labels, alternatives, the graph's methods and how it is built.
pub mod Text
pub mod Skills
pub mod Graph
pub mod Build
pub mod Sound
pub mod Run
pub mod Bounds
pub mod Total
pub mod Examples
