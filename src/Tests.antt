-- ===== src/Tests.antt =====
-- Runs of the model on small clusters, and the theorems at concrete data.
mod Clients
mod Scaling
mod Deletion
mod Deleted
mod Pods
mod Decisions
mod Permissions
mod Rollout
mod Upgrade
mod Config
mod Crd
mod Cmd
mod Guards
mod Waiting
mod Settings
mod Informers
mod Copies
mod CopiedStrategies
mod Typed
mod Histories
mod Indexed
mod Construction
