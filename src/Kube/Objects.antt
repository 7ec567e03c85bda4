-- ===== src/Kube/Objects.antt =====
-- Kubernetes API objects, with the fields that the code reads or writes.
use talisman.Common.{ℕ, String, List, Option, Bool}
use talisman.Go.Numbers.{ℤ}

-- A map from text to text; a Go map may be nil, which is `none`.
abbrev pub Labels : Type 0
Labels = List (String × String)

-- A deployment or a stateful set: `replicas` is a pointer, `annotations` may be a nil map.
pub record Workload : Type 0 where
  pub name : String
  pub namespace : String
  pub annotations : Option Labels
  pub replicas : Option ℤ

-- `*v1.Affinity`, which is only passed on.
abbrev pub Affinity : Type 0
Affinity = Option String

pub record SecretKeySelector : Type 0 where
  pub name : String
  pub key : String

-- `EnvVarSource`: a reference to a secret's key, or one of the other kinds.
pub data EnvVarSource : Type 0 where
  secret_key_ref : SecretKeySelector → EnvVarSource
  other_source : EnvVarSource

pub record EnvVar : Type 0 where
  pub name : String
  pub value : String
  pub value_from : Option EnvVarSource

pub record VolumeMount : Type 0 where
  pub name : String
  pub mount_path : String
  pub read_only : Bool

-- A volume: `host_path` is the path of its `HostPath` source, if it has one.
pub record Volume : Type 0 where
  pub name : String
  pub host_path : Option String
  pub create_directory : Bool

pub data Probe : Type 0 where
  -- the delay in seconds before a command is run in the container
  exec_after : ℕ → List String → Probe
  -- the period in seconds of a request to a host, port and path
  http_get_every : ℕ → String → ℕ → String → Probe

pub record Container : Type 0 where
  pub name : String
  pub image : String
  pub image_pull_policy : String
  pub args : List String
  pub env : List EnvVar
  pub privileged : Bool
  pub readiness_probe : Option Probe
  pub volume_mounts : List VolumeMount

pub record PodSpec : Type 0 where
  pub host_pid : Bool
  pub host_network : Bool
  pub affinity : Affinity
  pub containers : List Container
  pub restart_policy : String
  pub service_account_name : String
  pub volumes : List Volume

pub record DaemonSet : Type 0 where
  pub name : String
  pub namespace : String
  pub uid : String
  pub labels : Labels
  pub annotations : Option Labels
  pub selector : Labels
  pub template_labels : Labels
  pub pod : PodSpec
  pub observed_generation : ℕ

pub record ServicePort : Type 0 where
  pub name : String
  pub protocol : String
  pub port : ℕ
  pub target_port : ℕ

pub record Service : Type 0 where
  pub name : String
  pub namespace : String
  pub labels : Labels
  pub selector : Labels
  pub service_type : String
  pub cluster_ip : String
  pub ports : List ServicePort

pub record PolicyRule : Type 0 where
  pub api_groups : List String
  pub resources : List String
  pub resource_names : List String
  pub verbs : List String

pub record Role : Type 0 where
  pub name : String
  pub namespace : String
  pub rules : List PolicyRule

pub record Subject : Type 0 where
  pub kind : String
  pub name : String
  pub namespace : String

pub record RoleRef : Type 0 where
  pub kind : String
  pub name : String
  pub api_group : String

pub record RoleBinding : Type 0 where
  pub name : String
  pub namespace : String
  pub subjects : List Subject
  pub role_ref : RoleRef

-- A storage class; only its name is used.
pub record StorageClass : Type 0 where
  pub name : String

pub record PersistentVolumeClaim : Type 0 where
  pub name : String
  pub namespace : String
  pub volume_name : String

pub record PersistentVolume : Type 0 where
  pub name : String
  -- `Spec.PortworxVolume != nil`
  pub is_portworx_volume : Bool

-- A volume of a pod: a Portworx volume, a claim, or neither.
pub record PodVolume : Type 0 where
  pub is_portworx_volume : Bool
  pub claim_name : Option String

pub record Pod : Type 0 where
  pub name : String
  pub namespace : String
  pub volumes : List PodVolume
