-- ===== src/Examples.antt =====
-- Tests of the definitions, and the theorems at concrete inputs.
pub mod Instances
pub mod Coinjoin
pub mod Accounts
pub mod Ledgers
pub mod Hex
pub mod Api
pub mod Managers
pub mod Chat
pub mod Network
pub mod Cached
pub mod Filters
pub mod Http
pub mod Nodes
pub mod Sites
pub mod Overlaps
