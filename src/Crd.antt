-- ===== src/Crd.antt =====
-- pkg/crd/crd.go: the creation of custom resource definitions.
pub mod Established
use talisman.Common.{
  ℕ, String, ◌<>◌, Bool, true, false, Option, none, some, List, [], ◌∷◌, if◌then◌else◌,
}
use talisman.Go.Results.{
  Error, timed_out, errorf, wrapped, is_already_exists, Result, ok, err, panic, Action, pure, raise,
  ◌>>=◌, ◌>>◌, catch,
}
use talisman.Go.Retry.{Attempt, done, again, give_up, Task, call, Retrier}

-- The scope of a resource is a text.
pub record CustomResource : Type 0 where
  pub name : String
  pub plural : String
  pub group : String
  pub version : String
  pub scope : String
  pub kind : String

-- `CustomResourceDefinition`
pub record Definition : Type 0 where
  pub name : String
  pub group : String
  pub version : String
  pub scope : String
  pub singular : String
  pub plural : String
  pub kind : String

pub data ConditionType : Type 0 where
  established names_accepted other_condition : ConditionType

pub data ConditionStatus : Type 0 where
  condition_true condition_false condition_unknown : ConditionStatus

pub record Condition : Type 0 where
  pub condition_type : ConditionType
  pub status : ConditionStatus
  pub reason : String

-- The client for definitions: it creates one, and reads the conditions of one by its name.
pub record DefinitionClient (W : Type 0) : Type 0 where
  pub create_definition : Definition → Action W (Unit {0})
  pub get_conditions : String → Action W (List Condition)

-- `Context`, without the clientset that is not used.
pub record CrdContext (W : Type 0) : Type 0 where
  pub client : DefinitionClient W
  pub interval : ℕ
  pub timeout : ℕ

abbrev pub crd_name : CustomResource → String
crd_name resource = resource.plural <> ("." <> resource.group)

abbrev pub definition_of : CustomResource → Definition
definition_of resource = record {
  name = crd_name resource;
  group = resource.group;
  version = resource.version;
  scope = resource.scope;
  singular = resource.name;
  plural = resource.plural;
  kind = resource.kind;
}

-- The switch on one condition, before the conditions that follow.
abbrev pub judge : ConditionType → ConditionStatus → String → Attempt → Attempt
judge established condition_true reason rest = done
judge names_accepted condition_false reason rest =
    give_up (errorf "name conflict: %v" (reason ∷ []))
judge _ _ reason rest = rest

unfoldable pub check_conditions : List Condition → Attempt
check_conditions [] = again timed_out
check_conditions (c ∷ cs) = judge c.condition_type c.status c.reason (check_conditions cs)

module _ {W : Type 0} (context : CrdContext W) where
  -- `createCRD`
  unfoldable pub create_one : CustomResource → Action W (Unit {0})
  create_one resource = catch (context.client.create_definition (definition_of resource)) λ e.
      if is_already_exists e
      then pure tt
      else raise (wrapped "failed to create %s CRD: %+v" (resource.name ∷ []) e)

  -- The function that `waitForCRDInit` polls; an error of the read ends the polling.
  unfoldable pub init_task : CustomResource → Task W
  unfolding check_conditions
  init_task resource =
      call (context.client.get_conditions (crd_name resource)) give_up
        λ conditions w. (check_conditions conditions, w)

  -- `waitForCRDInit`, with `poll` for `wait.Poll`, whose arguments are in the other order.
  unfoldable pub wait_for_crd_init : Retrier → CustomResource → Action W (Unit {0})
  unfolding init_task
  wait_for_crd_init poll resource =
      poll.retry W context.timeout context.interval (init_task resource)

-- A loop that goes on after an error, and keeps the last one.
abbrev pub go_on :
    {W : Type 0}
    → (Option Error → Action W (Option Error))
    → Option Error
    → Result (Unit {0})
    → Action W (Option Error)
go_on rest last (ok _) = rest last
go_on rest last (err e) = rest (some e)
go_on rest last (panic p) = λ w. (panic p, w)

unfoldable pub try_each :
    {W : Type 0}
    → (CustomResource → Action W (Unit {0}))
    → List CustomResource
    → Option Error
    → Action W (Option Error)
try_each f [] last w = (ok last, w)
try_each f (resource ∷ rest) last w =
    let (r, w') = f resource w in go_on (try_each f rest) last r w'

abbrev pub last_error : {W : Type 0} → Option Error → Action W (Unit {0})
last_error none = pure tt
last_error (some e) = raise e

-- `CreateCRD`
unfoldable pub create_crd :
    {W : Type 0} → Retrier → CrdContext W → List CustomResource → Action W (Unit {0})
unfolding create_one wait_for_crd_init try_each
create_crd poll context resources = do
  last ← try_each (create_one context) resources none
  last ← try_each (wait_for_crd_init context poll) resources last
  last_error last
