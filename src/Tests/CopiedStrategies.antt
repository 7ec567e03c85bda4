-- ===== src/Tests/CopiedStrategies.antt =====
-- The deep copy of a strategy in a small memory.
use talisman.Common.{String, refl, Option, none, some, [], ◌∷◌, arith}
use talisman.Go.Memory.{Heap}
use talisman.Go.Memory.Models.{plain, list_model, ref_model}
use talisman.Go.Memory.Independence.{Independent}
use talisman.Apis.External.{zero_type_meta}
use talisman.Apis.V1beta1.{
  enforcement_required, label_selector_op_in, VolumePlacementStrategy, LabelSelectorRequirement,
}
use talisman.Apis.V1beta2.{VolumePlacementSpec, CommonPlacementSpec}
use talisman.Apis.Cells.{Cell, strings, refs, requirement, common, strategy_v1beta2, part}
use talisman.Apis.Copy.{deep_copy_strategy_v1beta2}
use talisman.Apis.Copy.Models.{
  SpecV1beta2Value, spec_v1beta2_model, requirement_model, common_model, commons_model,
}
use talisman.Apis.Copy.Strategies.{strategy_model, deep_copy_strategy_v1beta2-Independent}
use talisman.Tests.Copies.{kubernetes, copies, their_depth, nth, points}

-- A strategy with one rule on volumes, whose slice has a nil pointer as well.
module _ {M S R : Type 0} (name : M) (commons : S) (no_replicas : R) (no_commons : S) where
  abbrev strategy_of : VolumePlacementStrategy M (VolumePlacementSpec R S)
  strategy_of = record {
    type_meta = zero_type_meta;
    object_meta = name;
    spec = record {
      replica_affinity = no_replicas;
      replica_anti_affinity = no_replicas;
      volume_affinity = commons;
      volume_anti_affinity = no_commons;
    };
  }

abbrev common_of : {R : Type 0} → R → CommonPlacementSpec R
common_of r = record {
  weight = 100;
  enforcement = enforcement_required;
  topology_key = "zone";
  match_expressions = r;
}

abbrev requirement_of : {S : Type 0} → S → LabelSelectorRequirement S
requirement_of s = record { key = "app"; operator = label_selector_op_in; values = s }

abbrev strategy_memory : Heap (Cell kubernetes)
strategy_memory = record {
  next = 7;
  cell = nth (
      strategy_v1beta2 (strategy_of (some 1) (some 2) none none)
      ∷ part "spread"
      ∷ refs (some 3 ∷ none ∷ [])
      ∷ common (common_of (some 4))
      ∷ refs (some 5 ∷ [])
      ∷ requirement (requirement_of (some 6))
      ∷ strings ("db" ∷ [])
      ∷ []);
}

abbrev strategy_value : VolumePlacementStrategy (Option String) SpecV1beta2Value
strategy_value =
    strategy_of (some "spread")
      (some (some (common_of (some (some (requirement_of (some ("db" ∷ []))) ∷ []))) ∷ none ∷ []))
      none none

volumes-stand :
    (commons_model kubernetes).Rep strategy_memory 0 (some 2) strategy_value.spec.volume_affinity
volumes-stand =
    let h = strategy_memory in
    let E = kubernetes in
    points refs (list_model (ref_model common (common_model E))) h 2 (some 3 ∷ none ∷ [])
      (some (common_of (some (some (requirement_of (some ("db" ∷ []))) ∷ []))) ∷ none ∷ [])
      (omega arith) refl
      (
        points common (common_model E) h 3 (common_of (some 4))
            (common_of (some (some (requirement_of (some ("db" ∷ []))) ∷ []))) (omega arith) refl
            (
              refl,
              points refs (list_model (ref_model requirement (requirement_model E))) h 4
                  (some 5 ∷ []) (some (requirement_of (some ("db" ∷ []))) ∷ []) (omega arith) refl
                  (
                    points requirement (requirement_model E) h 5 (requirement_of (some 6))
                        (requirement_of (some ("db" ∷ []))) (omega arith) refl
                        (
                          refl,
                          points strings plain h 6 ("db" ∷ []) ("db" ∷ []) (omega arith) refl refl,
                        ),
                    tt,
                  ),
            ),
        (tt, tt),
      )

deep_copy_strategy_v1beta2-Independent_example :
    Independent
      (ref_model strategy_v1beta2
        (strategy_model copies their_depth (spec_v1beta2_model kubernetes)))
      strategy_memory
      (some 0)
      (some strategy_value)
      (deep_copy_strategy_v1beta2 copies (some 0) strategy_memory)
deep_copy_strategy_v1beta2-Independent_example =
    deep_copy_strategy_v1beta2-Independent copies their_depth strategy_memory (some 0)
      (some strategy_value)
      (points strategy_v1beta2 (strategy_model copies their_depth (spec_v1beta2_model kubernetes))
        strategy_memory 0 (strategy_of (some 1) (some 2) none none) strategy_value (omega arith)
        refl
        (
          (refl, points part plain strategy_memory 1 "spread" "spread" (omega arith) refl refl),
          ((tt, tt), (volumes-stand, tt)),
        ))
