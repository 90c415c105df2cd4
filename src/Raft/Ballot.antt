-- ===== src/Raft/Ballot.antt =====
-- internal/raft: the term and the vote, in memory and on disk, under every method of the core.
pub mod Frame
pub mod Following
pub mod Rules
pub mod Leading
pub mod Campaign
pub mod Voting
pub mod PreVoting
pub mod Answers
pub mod Dispatch
pub mod Restart
pub mod Granting
pub mod Safety
