-- ===== src/Raft.antt =====
-- internal/raft: the consensus core, its log store and its snapshot file.
pub mod Result
pub mod Entry
pub mod StateFile
pub mod Members
pub mod Snapshot
pub mod Disk
pub mod Core
pub mod Log
pub mod Persist
pub mod Membership
pub mod ReadIndex
pub mod Replication
pub mod Follower
pub mod Leader
pub mod Election
pub mod PreVote
pub mod Install
pub mod Boot
pub mod Node
pub mod Ballot
pub mod Order
mod Tests
mod FileTests
pub mod Sample
mod NodeTests
pub mod Compaction
pub mod Quorum
