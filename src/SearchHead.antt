-- ===== src/SearchHead.antt =====
-- pkg/splunk/enterprise/searchheadclusterpodmanager.go: the pod manager of a search head cluster.
pub mod Manager
pub mod Status
pub mod Draining
pub mod Upgrade
pub mod Reconcile
mod Scenarios
