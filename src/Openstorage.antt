-- ===== src/Openstorage.antt =====
-- The clients of openstorage that the code calls, over an unknown state `W`.
use talisman.Common.{String, Bool, List}
use talisman.Go.Results.{Action}
use talisman.Kube.Objects.{Labels}

-- A node of the cluster that the manager enumerates.
pub record Node : Type 0 where
  pub id : String
  pub node_labels : Labels

-- A volume that the driver reports, and whether its `AttachedState` is the external one.
pub record DriverVolume : Type 0 where
  pub name : String
  pub is_attached : Bool

module _ (W : Type 0) where
  pub record ClusterManager : Type 0 where
    pub enumerate : Action W (List Node)

  pub record VolumeDriver : Type 0 where
    pub inspect : List String → Action W (List DriverVolume)
