-- ===== src/State.antt =====
-- The package `state` (state/*.go), its store that keeps everything in memory
-- (state/in-memory), and the `ttlInSeconds` reader of state/utils.
pub mod Errors
pub mod Options
pub mod Requests
pub mod Ttl
pub mod InMemory
pub mod Query
pub mod Bulk
pub mod Stringify
