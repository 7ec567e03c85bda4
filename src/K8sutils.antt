-- ===== src/K8sutils.antt =====
-- pkg/k8sutils/k8sutils.go: the utilities on the Kubernetes clients.
pub mod Instance
pub mod Apps
pub mod Scaling
pub mod Pods
