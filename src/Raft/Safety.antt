-- ===== src/Raft/Safety.antt =====
-- Election safety: the nodes of a cluster, whatever messages reach them.
pub mod Count
pub mod Change
pub mod LeaderChange
pub mod Cluster
pub mod Invariant
pub mod Voting
pub mod Winning
pub mod Elections
