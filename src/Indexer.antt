-- ===== src/Indexer.antt =====
-- pkg/splunk/enterprise/indexercluster.go: the pod manager of an indexer cluster.
pub mod Manager
pub mod Status
pub mod Decommission
pub mod Reconcile
pub mod Replication
mod Scenarios
