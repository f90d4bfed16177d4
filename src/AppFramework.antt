-- ===== src/AppFramework.antt =====
-- pkg/splunk/enterprise/afwscheduler.go and util.go: the App framework, which downloads app
-- packages, copies them to the pods and installs them.
pub mod PodNames
pub mod Status
pub mod Types
pub mod Phases
pub mod Queue
pub mod Pipeline
pub mod Deployment
pub mod Bundle
pub mod Premium
pub mod Entry
pub mod Migration
pub mod RepoCheck
mod Scenarios
