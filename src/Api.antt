-- ===== src/Api.antt =====
-- pkg/apis/portworx/v1beta1/types.go: the part of a cluster's specification that the code reads.
use talisman.Common.{String}

-- `ClusterSpec`
pub record ClusterSpec : Type 0 where
  pub px_image : String
  pub px_tag : String
  pub oci_mon_image : String
  pub oci_mon_tag : String
