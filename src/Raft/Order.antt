-- ===== src/Raft/Order.antt =====
-- internal/raft: the shape of the log in memory, its commit index and what is delivered from it.
pub mod Shape
pub mod Frame
pub mod Deliver
pub mod Append
pub mod Terms
pub mod Fresh
pub mod Request
pub mod Follow
pub mod PreVote
pub mod Compact
pub mod Backed
pub mod Commit
pub mod Regress
