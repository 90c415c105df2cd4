-- ===== src/Kvraft.antt =====
-- internal/kvraft: the replicated key-value state machine and the way keys are spread over shards.
pub mod StateMachine
pub mod Session
pub mod Snapshot
pub mod Sharding
pub mod Service
pub mod Starts
pub mod Replicated
mod Tests
mod NodeTests
