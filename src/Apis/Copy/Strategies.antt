-- ===== src/Apis/Copy/Strategies.antt =====
-- pkg/apis/portworx: the copies of volume placement strategies, and the values that they stand for.
use talisman.Common.{refl, Option}
use talisman.Go.Memory.{Ref, Heap, M, pure, Agree-trans, pure-Ends, then-Ends}
use talisman.Go.Memory.Models.{Model, plain, list_model, ref_model, RepRef}
use talisman.Go.Memory.Copies.{
  Copies, copy_list, copy_list-Copies, copy_ref-Copies, part-Ends, keep,
}
use talisman.Go.Memory.Independence.{Independent, Copies-Independent}
use talisman.Go.Memory.Structs.{pair_model, via_model}
use talisman.Apis.V1beta1.{VolumePlacementStrategy}
use talisman.Apis.External.{External}
use talisman.Apis.Cells.{
  Cell, DeepCopies, strings, refs, requirement, rules, common, replica, strategy, strategy_v1beta2,
}
use talisman.Apis.Copy.{
  copy_strings, copy_requirement, deep_copy_requirement, copy_pointers, copy_rule, copy_rules,
  copy_placement_spec_v1beta1, copy_common, copy_replica, deep_copy_common, deep_copy_replica,
  copy_placement_spec_v1beta2, copy_strategy, copy_strategy_v1beta2, deep_copy_strategy,
  deep_copy_strategy_v1beta2,
}
use talisman.Apis.Copy.Models.{
  strings_model, requirement_model, pointers_model, requirements_model, rule_model, spec_model,
  common_model, replica_model, replicas_model, commons_model, spec_v1beta2_model, strategy_parts,
  SpecV1beta2Value, IsDeep,
}

module _ {E : External} where
  pub plain-Copies : {A : Type 0} → Copies {Cell = Cell E} (plain {A = A}) pure
  plain-Copies h lo a v le e = pure-Ends h a _ e

  pub copy_strings-Copies : Copies (strings_model E) copy_strings
  copy_strings-Copies = copy_ref-Copies plain pure plain-Copies strings _ _ λ a. refl

  copy_requirement-Copies : Copies (requirement_model E) copy_requirement
  unfolding copy_requirement
  copy_requirement-Copies h lo r v le (header, values) =
      then-Ends h (copy_strings r.values) _ _ _
        (copy_strings-Copies h lo r.values v.values le values)
        λ vs h' e s. pure-Ends h' _ _ (header, s)

  copy_pointers-Copies :
      {V : Type 0} (D : Model (Cell E) Ref V) (copy : Ref → M (Cell E) Ref)
      → Copies D copy
      → Copies (pointers_model E D) (copy_pointers copy)
  copy_pointers-Copies D copy c =
      copy_ref-Copies (list_model D) (copy_list copy) (copy_list-Copies D copy c) refs _ _ λ a. refl

  copy_requirements-Copies : Copies (requirements_model E) (copy_pointers deep_copy_requirement)
  unfolding deep_copy_requirement
  copy_requirements-Copies =
      copy_pointers-Copies (ref_model requirement (requirement_model E)) deep_copy_requirement (
        copy_ref-Copies (requirement_model E) copy_requirement copy_requirement-Copies requirement _
          _ λ a. refl)

  copy_rule-Copies : Copies (rule_model E) copy_rule
  unfolding copy_rule
  copy_rule-Copies h lo r v le (header, exprs) =
      then-Ends h (copy_pointers deep_copy_requirement r.match_expressions) _ _ _
        (copy_requirements-Copies h lo r.match_expressions v.match_expressions le exprs)
        λ es h' e s. pure-Ends h' _ _ (header, s)

  copy_rules-Copies : Copies (ref_model rules (list_model (rule_model E))) copy_rules
  copy_rules-Copies =
      copy_ref-Copies (list_model (rule_model E)) (copy_list copy_rule)
        (copy_list-Copies (rule_model E) copy_rule copy_rule-Copies) rules _ _ λ a. refl

  copy_placement_spec_v1beta1-Copies : Copies (spec_model E) copy_placement_spec_v1beta1
  unfolding copy_placement_spec_v1beta1
  copy_placement_spec_v1beta1-Copies h lo s v le stands =
      then-Ends h (copy_rules s.rules) _ _ _ (copy_rules-Copies h lo s.rules v.rules le stands)
        λ rs h' e t. pure-Ends h' _ _ t

  copy_common-Copies : Copies (common_model E) copy_common
  unfolding copy_common
  copy_common-Copies h lo c v le (header, exprs) =
      then-Ends h (copy_pointers deep_copy_requirement c.match_expressions) _ _ _
        (copy_requirements-Copies h lo c.match_expressions v.match_expressions le exprs)
        λ es h' e s. pure-Ends h' _ _ (header, s)

  copy_replica-Copies : Copies (replica_model E) copy_replica
  unfolding copy_replica
  copy_replica-Copies h lo r v le (header, stands) =
      then-Ends h (copy_common r.common) _ _ _ (copy_common-Copies h lo r.common v.common le stands)
        λ c h' e s. pure-Ends h' _ _ (header, s)

  copy_replicas-Copies : Copies (replicas_model E) (copy_pointers deep_copy_replica)
  unfolding deep_copy_replica
  copy_replicas-Copies =
      copy_pointers-Copies (ref_model replica (replica_model E)) deep_copy_replica
        (copy_ref-Copies (replica_model E) copy_replica copy_replica-Copies replica _ _ λ a. refl)

  copy_commons-Copies : Copies (commons_model E) (copy_pointers deep_copy_common)
  unfolding deep_copy_common
  copy_commons-Copies =
      copy_pointers-Copies (ref_model common (common_model E)) deep_copy_common
        (copy_ref-Copies (common_model E) copy_common copy_common-Copies common _ _ λ a. refl)

  copy_placement_spec_v1beta2-Copies : Copies (spec_v1beta2_model E) copy_placement_spec_v1beta2
  unfolding copy_placement_spec_v1beta2
  copy_placement_spec_v1beta2-Copies h lo s v le ((ra, raa), (va, vaa)) =
      let R = replicas_model E in
      let C = commons_model E in
      then-Ends h (copy_pointers deep_copy_replica s.replica_affinity) _ _ _
        (copy_replicas-Copies h lo s.replica_affinity v.replica_affinity le ra)
        λ a h₁ e₁ ha.
          then-Ends h₁ (copy_pointers deep_copy_replica s.replica_anti_affinity) _ _ _
            (part-Ends R copy_replicas-Copies lo s.replica_anti_affinity v.replica_anti_affinity le
              e₁ raa)
            λ b h₂ e₂ hb.
              let e₁₂ = Agree-trans e₁ e₂ in
              then-Ends h₂ (copy_pointers deep_copy_common s.volume_affinity) _ _ _
                (part-Ends C copy_commons-Copies lo s.volume_affinity v.volume_affinity le e₁₂ va)
                λ c h₃ e₃ hc.
                  let e₁₃ = Agree-trans e₁₂ e₃ in
                  let e₂₃ = Agree-trans e₂ e₃ in
                  then-Ends h₃ (copy_pointers deep_copy_common s.volume_anti_affinity) _ _ _
                    (part-Ends C copy_commons-Copies lo s.volume_anti_affinity
                      v.volume_anti_affinity le e₁₃ vaa)
                    λ d h₄ e₄ hd. pure-Ends h₄ _ _ (
                      (
                        keep R lo a v.replica_affinity (Agree-trans e₂₃ e₄) ha,
                        keep R lo b v.replica_anti_affinity (Agree-trans e₃ e₄) hb,
                      ),
                      (keep C lo c v.volume_affinity e₄ hc, hd),
                    )

module _ {E : External} (D : DeepCopies E) (deep : IsDeep E D) where
  abbrev pub strategy_model :
      {S V : Type 0}
      → Model (Cell E) S V
      → Model
          (Cell E)
          (VolumePlacementStrategy E.ObjectMeta S)
          (VolumePlacementStrategy E.ObjectMetaValue V)
  strategy_model spec =
      via_model strategy_parts strategy_parts
        (pair_model (pair_model plain deep.object_meta_model) spec)

  copy_strategy_v1beta2-Copies :
      Copies (strategy_model (spec_v1beta2_model E)) (copy_strategy_v1beta2 D)
  unfolding copy_strategy_v1beta2
  copy_strategy_v1beta2-Copies h lo s v le ((header, om), spec) =
      then-Ends h (D.copy_object_meta s.object_meta) _ _ _
        (deep.object_meta_copies h lo s.object_meta v.object_meta le om)
        λ m h₁ e₁ hm.
          then-Ends h₁ (copy_placement_spec_v1beta2 s.spec) _ _ _
            (part-Ends (spec_v1beta2_model E) copy_placement_spec_v1beta2-Copies lo s.spec v.spec le
              e₁ spec)
            λ sp h₂ e₂ hs.
              pure-Ends h₂ _ _ ((header, keep deep.object_meta_model lo m v.object_meta e₂ hm), hs)

  copy_strategy-Copies : Copies (strategy_model (spec_model E)) (copy_strategy D)
  unfolding copy_strategy
  copy_strategy-Copies h lo s v le ((header, om), spec) =
      then-Ends h (D.copy_object_meta s.object_meta) _ _ _
        (deep.object_meta_copies h lo s.object_meta v.object_meta le om)
        λ m h₁ e₁ hm.
          then-Ends h₁ (copy_placement_spec_v1beta1 s.spec) _ _ _
            (part-Ends (spec_model E) copy_placement_spec_v1beta1-Copies lo s.spec v.spec le e₁
              spec)
            λ sp h₂ e₂ hs.
              pure-Ends h₂ _ _ ((header, keep deep.object_meta_model lo m v.object_meta e₂ hm), hs)

  pub deep_copy_strategy-Copies :
      Copies (ref_model strategy (strategy_model (spec_model E))) (deep_copy_strategy D)
  unfolding deep_copy_strategy
  deep_copy_strategy-Copies =
      copy_ref-Copies (strategy_model (spec_model E)) (copy_strategy D) copy_strategy-Copies
        strategy _ _ λ a. refl

  pub deep_copy_strategy_v1beta2-Copies :
      Copies
        (ref_model strategy_v1beta2 (strategy_model (spec_v1beta2_model E)))
        (deep_copy_strategy_v1beta2 D)
  unfolding deep_copy_strategy_v1beta2
  deep_copy_strategy_v1beta2-Copies =
      copy_ref-Copies (strategy_model (spec_v1beta2_model E)) (copy_strategy_v1beta2 D)
        copy_strategy_v1beta2-Copies strategy_v1beta2 _ _ λ a. refl

  -- The deep copy of a volume placement strategy of v1beta2 ends, is equal to its original, with the
  -- slices of pointers and the pointers in them that are nil, and shares no memory with it: no later
  -- write into what was in memory before changes the copy, and none into the memory that was taken for
  -- the copy changes the original. This needs the deep copy of the object's metadata to be deep.
  pub deep_copy_strategy_v1beta2-Independent :
      (h : Heap (Cell E)) (s : Ref)
      (v : Option (VolumePlacementStrategy E.ObjectMetaValue SpecV1beta2Value))
      → RepRef strategy_v1beta2 (strategy_model (spec_v1beta2_model E)) h 0 s v
      → Independent
          (ref_model strategy_v1beta2 (strategy_model (spec_v1beta2_model E)))
          h
          s
          v
          (deep_copy_strategy_v1beta2 D s h)
  deep_copy_strategy_v1beta2-Independent =
      Copies-Independent (ref_model strategy_v1beta2 (strategy_model (spec_v1beta2_model E)))
        (deep_copy_strategy_v1beta2 D) deep_copy_strategy_v1beta2-Copies
