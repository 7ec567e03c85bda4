-- ===== src/Px.antt =====
-- pkg/cluster/px: the cluster provider of Portworx.
pub mod Names
pub mod Ops
pub mod Daemonsets
pub mod Version
pub mod Drain
pub mod Timeouts
pub mod Permissions
pub mod Env
pub mod Api
pub mod ClusterRole
pub mod Rollout
pub mod Config
pub mod Kvdb
pub mod Detach
pub mod Upgrade
pub mod Wiper
pub mod Remove
pub mod Delete
