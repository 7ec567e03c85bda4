-- ===== src/K8sutils/Scaling.antt =====
-- pkg/k8sutils/k8sutils.go: scaling the shared applications down, and back up again.
pub mod Change
pub mod Tasks
pub mod Memory
pub mod Store
pub mod Listing
pub mod Edits
pub mod Loops
pub mod ChangeLaws
pub mod Both
pub mod Cluster
