-- ===== src/Cluster.antt =====
-- ClusterBridge.cc: the vehicle frame, from the vehicle's reports and what is perceived.
pub mod State
pub mod Strand
pub mod Signals
pub mod Counts
pub mod Named
pub mod Latest
