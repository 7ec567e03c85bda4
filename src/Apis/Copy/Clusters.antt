-- ===== src/Apis/Copy/Clusters.antt =====
-- pkg/apis/portworx: the copies of clusters, and the values that they stand for.
use talisman.Common.{refl, Option, List}
use talisman.Go.Memory.{Ref, Heap, Agree-trans, pure-Ends, then-Ends}
use talisman.Go.Memory.Models.{Model, plain, list_model, ref_model, RepRef}
use talisman.Go.Memory.Copies.{
  Copies, copy_list, copy_list-Copies, copy_ref-Copies, part-Ends, keep,
}
use talisman.Go.Memory.Independence.{Independent, Copies-Independent}
use talisman.Go.Memory.Structs.{pair_model, via_model}
use talisman.Apis.External.{External}
use talisman.Apis.V1beta1.{PlacementSpec, Cluster}
use talisman.Apis.Cells.{
  Cell, DeepCopies, Placed, ClusterFields, ClusterObject, env_vars, tolerations, node_affinity,
  pod_affinity, pod_anti_affinity, cluster,
}
use talisman.Apis.Copy.{
  copy_strings, copy_kvdb_spec, copy_storage_spec, copy_placement, copy_placements,
  copy_cluster_spec, copy_cluster, deep_copy_cluster, copy_tolerations, copy_env,
  copy_node_affinities, copy_pod_affinities, copy_pod_anti_affinities,
}
use talisman.Apis.Copy.Models.{
  kvdb_model, storage_model, placement_parts, placements_parts, cluster_spec_parts, cluster_parts,
  PlacedValue, ClusterFieldsValue, IsDeep,
}
use talisman.Apis.Copy.Strategies.{copy_strings-Copies}

module _ {E : External} where
  copy_kvdb_spec-Copies : Copies (kvdb_model E) copy_kvdb_spec
  unfolding copy_kvdb_spec
  copy_kvdb_spec-Copies h lo k v le (header, es) =
      then-Ends h (copy_strings k.endpoints) _ _ _
        (copy_strings-Copies h lo k.endpoints v.endpoints le es)
        λ _ h' e s. pure-Ends h' _ _ (header, s)

  copy_storage_spec-Copies : Copies (storage_model E) copy_storage_spec
  unfolding copy_storage_spec
  copy_storage_spec-Copies h lo s v le (header, ds) =
      then-Ends h (copy_strings s.devices) _ _ _
        (copy_strings-Copies h lo s.devices v.devices le ds)
        λ _ h' e t. pure-Ends h' _ _ (header, t)

module _ {E : External} (D : DeepCopies E) (deep : IsDeep E D) where
  abbrev node_affinities : Model (Cell E) Ref (Option E.NodeAffinityValue)
  node_affinities = ref_model node_affinity deep.node_affinity_model

  abbrev pod_affinities : Model (Cell E) Ref (Option E.PodAffinityValue)
  pod_affinities = ref_model pod_affinity deep.pod_affinity_model

  abbrev pod_anti_affinities : Model (Cell E) Ref (Option E.PodAntiAffinityValue)
  pod_anti_affinities = ref_model pod_anti_affinity deep.pod_anti_affinity_model

  abbrev tolerations_model : Model (Cell E) Ref (Option (List E.TolerationValue))
  tolerations_model = ref_model tolerations (list_model deep.toleration_model)

  abbrev env_model : Model (Cell E) Ref (Option (List E.EnvVarValue))
  env_model = ref_model env_vars (list_model deep.env_var_model)

  abbrev pub placement_model : Model (Cell E) Placed (PlacedValue E)
  placement_model = via_model placement_parts placement_parts (
      pair_model (pair_model plain node_affinities)
        (pair_model pod_affinities (pair_model pod_anti_affinities tolerations_model)))

  abbrev pub placements_model :
      Model (Cell E) (PlacementSpec Placed) (PlacementSpec (PlacedValue E))
  placements_model = via_model placements_parts placements_parts (pair_model plain placement_model)

  abbrev pub cluster_spec_model : Model (Cell E) ClusterFields (ClusterFieldsValue E)
  cluster_spec_model = via_model cluster_spec_parts cluster_spec_parts (
      pair_model (pair_model plain (kvdb_model E))
        (pair_model (storage_model E) (pair_model placements_model env_model)))

  abbrev pub cluster_model :
      Model (Cell E) (ClusterObject E) (Cluster E.ObjectMetaValue (ClusterFieldsValue E))
  cluster_model =
      via_model cluster_parts cluster_parts
        (pair_model (pair_model plain deep.object_meta_model) cluster_spec_model)

  copy_tolerations-Copies : Copies tolerations_model (copy_tolerations D)
  copy_tolerations-Copies =
      copy_ref-Copies (list_model deep.toleration_model) (copy_list D.copy_toleration)
        (copy_list-Copies deep.toleration_model D.copy_toleration deep.toleration_copies)
        tolerations _ _ λ a. refl

  copy_env-Copies : Copies env_model (copy_env D)
  copy_env-Copies =
      copy_ref-Copies (list_model deep.env_var_model) (copy_list D.copy_env_var)
        (copy_list-Copies deep.env_var_model D.copy_env_var deep.env_var_copies) env_vars _ _
        λ a. refl

  copy_placement-Copies : Copies placement_model (copy_placement D)
  unfolding copy_placement
  copy_placement-Copies h lo p v le ((header, na), (pa, (paa, ts))) =
      then-Ends h (copy_node_affinities D p.node_affinity) _ _ _
        (copy_ref-Copies deep.node_affinity_model D.copy_node_affinity deep.node_affinity_copies
          node_affinity _ _ (λ a. refl) h lo p.node_affinity v.node_affinity le na)
        λ a h₁ e₁ ha.
          then-Ends h₁ (copy_pod_affinities D p.pod_affinity) _ _ _
            (part-Ends pod_affinities
              (copy_ref-Copies deep.pod_affinity_model D.copy_pod_affinity deep.pod_affinity_copies
                pod_affinity _ _ λ a. refl)
              lo p.pod_affinity v.pod_affinity le e₁ pa)
            λ b h₂ e₂ hb.
              let e₁₂ = Agree-trans e₁ e₂ in
              then-Ends h₂ (copy_pod_anti_affinities D p.pod_anti_affinity) _ _ _
                (part-Ends pod_anti_affinities
                  (copy_ref-Copies deep.pod_anti_affinity_model D.copy_pod_anti_affinity
                    deep.pod_anti_affinity_copies pod_anti_affinity _ _ λ a. refl)
                  lo p.pod_anti_affinity v.pod_anti_affinity le e₁₂ paa)
                λ c h₃ e₃ hc.
                  let e₂₃ = Agree-trans e₂ e₃ in
                  then-Ends h₃ (copy_tolerations D p.tolerations) _ _ _
                    (part-Ends tolerations_model copy_tolerations-Copies lo p.tolerations
                      v.tolerations le (Agree-trans e₁₂ e₃) ts)
                    λ d h₄ e₄ hd. pure-Ends h₄ _ _ (
                      (header, keep node_affinities lo a v.node_affinity (Agree-trans e₂₃ e₄) ha),
                      (
                        keep pod_affinities lo b v.pod_affinity (Agree-trans e₃ e₄) hb,
                        (keep pod_anti_affinities lo c v.pod_anti_affinity e₄ hc, hd),
                      ),
                    )

  copy_placements-Copies : Copies placements_model (copy_placements D)
  unfolding copy_placements
  copy_placements-Copies h lo s v le (header, px) =
      then-Ends h (copy_placement D s.px) _ _ _ (copy_placement-Copies h lo s.px v.px le px)
        λ _ h' e t. pure-Ends h' _ _ (header, t)

  copy_cluster_spec-Copies : Copies cluster_spec_model (copy_cluster_spec D)
  unfolding copy_cluster_spec
  copy_cluster_spec-Copies h lo s v le ((header, k), (st, (pl, env))) =
      then-Ends h (copy_kvdb_spec s.kvdb) _ _ _ (copy_kvdb_spec-Copies h lo s.kvdb v.kvdb le k)
        λ a h₁ e₁ ha.
          then-Ends h₁ (copy_storage_spec s.storage) _ _ _
            (part-Ends (storage_model E) copy_storage_spec-Copies lo s.storage v.storage le e₁ st)
            λ b h₂ e₂ hb.
              let e₁₂ = Agree-trans e₁ e₂ in
              then-Ends h₂ (copy_placements D s.placement) _ _ _
                (part-Ends placements_model copy_placements-Copies lo s.placement v.placement le e₁₂
                  pl)
                λ c h₃ e₃ hc.
                  let e₂₃ = Agree-trans e₂ e₃ in
                  then-Ends h₃ (copy_env D s.env) _ _ _
                    (part-Ends env_model copy_env-Copies lo s.env v.env le (Agree-trans e₁₂ e₃) env)
                    λ d h₄ e₄ hd. pure-Ends h₄ _ _ (
                      (header, keep (kvdb_model E) lo a v.kvdb (Agree-trans e₂₃ e₄) ha),
                      (
                        keep (storage_model E) lo b v.storage (Agree-trans e₃ e₄) hb,
                        (keep placements_model lo c v.placement e₄ hc, hd),
                      ),
                    )

  pub copy_cluster-Copies : Copies cluster_model (copy_cluster D)
  unfolding copy_cluster
  copy_cluster-Copies h lo c v le ((header, om), spec) =
      then-Ends h (D.copy_object_meta c.object_meta) _ _ _
        (deep.object_meta_copies h lo c.object_meta v.object_meta le om)
        λ m h₁ e₁ hm.
          then-Ends h₁ (copy_cluster_spec D c.spec) _ _ _
            (part-Ends cluster_spec_model copy_cluster_spec-Copies lo c.spec v.spec le e₁ spec)
            λ sp h₂ e₂ hs.
              pure-Ends h₂ _ _ ((header, keep deep.object_meta_model lo m v.object_meta e₂ hm), hs)

  -- The deep copy of a cluster object ends, is equal to its original and shares no memory with it: no
  -- later write into what was in memory before changes the copy, and no later write into the memory that
  -- was taken for the copy changes the original. This needs the deep copies of the Kubernetes types
  -- to be deep themselves.
  pub deep_copy_cluster-Independent :
      (h : Heap (Cell E)) (c : Ref) (v : Option (Cluster E.ObjectMetaValue (ClusterFieldsValue E)))
      → RepRef cluster cluster_model h 0 c v
      → Independent (ref_model cluster cluster_model) h c v (deep_copy_cluster D c h)
  unfolding deep_copy_cluster
  deep_copy_cluster-Independent =
      Copies-Independent (ref_model cluster cluster_model) (deep_copy_cluster D)
        (copy_ref-Copies cluster_model (copy_cluster D) copy_cluster-Copies cluster _ _ λ a. refl)
