-- ===== src/Graph.antt =====
-- libs/engine/core/graph and the types that the search works on.
pub mod Runs
pub mod Nav
pub mod Options
pub mod Workspace
pub mod Select
pub mod Tables
pub mod Search
pub mod Yen
pub mod Constraints
