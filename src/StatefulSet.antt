-- ===== src/StatefulSet.antt =====
-- pkg/splunk/splkcontroller/statefulset.go: the controller that scales a StatefulSet and recycles
-- its pods, and the interface of the pod managers (pkg/splunk/common/types.go).
pub mod Manager
pub mod Update
pub mod Calls
pub mod Rolling
pub mod Readiness
pub mod Scaling
pub mod Convergence
pub mod Invariant
mod Scenarios
