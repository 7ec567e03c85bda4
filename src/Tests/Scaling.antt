-- ===== src/Tests/Scaling.antt =====
-- A cluster with one shared storage class, two deployments and a stateful set.
use talisman.Common.{
  String, Bool, true, false, ◌==◌, ◌≡◌, refl, ap, inl, inr, Option, none, some, List, [], ◌∷◌,
  arith, Bool-cases, if◌then◌else◌,
}
use talisman.Go.Numbers.{ℤ, pos, sprint_int, atoi}
use talisman.Go.Results.{api, is_missing, Action, ok, err, pure, gather, for_each}
use talisman.K8sutils.Apps.{is_shared, get_px_shared_apps}
use talisman.K8sutils.Scaling.ChangeLaws.{IsDistinct}
use talisman.Go.Retry.{rounds, bounded_retrier, bounded_retrier-IsRetry}
use talisman.Kube.Objects.{Labels, Workload, StorageClass}
use talisman.Kube.Clients.{KubeClient}
use talisman.K8sutils.Instance.{Instance}
use talisman.K8sutils.Scaling.Change.{
  IntOrString, int, str, scale_stateful_set, restore_app, changed,
}
use talisman.K8sutils.Scaling.Tasks.{scale_shared_apps_to_zero, restore_scaled_apps_replicas}
use mathlib.Core.Option.{some-injective}
use talisman.K8sutils.Scaling.Memory.{ReadsCounts, IsFresh, restore_app-scale_twice}
use talisman.K8sutils.Scaling.Store.{
  AppKind, deployment, stateful_set, Key, key_of, same_key, same_key-eq, View, ReadsBack, Writes,
  IsAppStore,
}
use talisman.K8sutils.Scaling.Listing.{Inventory, IsListed, shared_classes, shared_stateful_sets}
use talisman.K8sutils.Scaling.Cluster.{
  ScaledDown, GivesBack, AreFresh, scale_shared_apps_to_zero-ScaledDown,
  restore_scaled_apps_replicas-GivesBack,
}
use talisman.Tests.Clients.{no_core, no_apps, no_storage}

-- The annotations and replicas of what exists.
abbrev pub World : Type 0
World = Key → Option (Option Labels × Option ℤ)

abbrev app_at : Key → Option Labels × Option ℤ → Workload
app_at key (m, r) = record {
  name = key.name;
  namespace = key.namespace;
  annotations = m;
  replicas = r;
}

abbrev stored_at : Key → Option (Option Labels × Option ℤ) → Option Workload
stored_at key none = none
stored_at key (some x) = some (app_at key x)

abbrev pub view : View World
view w key = stored_at key (w key)

abbrev respond : Key → Option (Option Labels × Option ℤ) → Action World Workload
respond key none w = (err (api is_missing "not found"), w)
respond key (some x) w = (ok (app_at key x), w)

abbrev get : AppKind → String → String → Action World Workload
get kind namespace name w =
    let key : Key = record { kind = kind; namespace = namespace; name = name } in
    respond key (w key) w

abbrev update : AppKind → Workload → Action World (Unit {0})
update kind d w =
    (ok tt, λ key. if same_key (key_of kind d) key then some (d.annotations, d.replicas) else w key)

abbrev kube : KubeClient World
kube = record {
  list_storage_classes = pure (record { name = "shared-sc" } ∷ record { name = "db-sc" } ∷ []);
  get_deployment = get deployment;
  update_deployment = λ _. update deployment;
  get_stateful_set = get stateful_set;
  update_stateful_set = λ _. update stateful_set;
}

abbrev web : Workload
web = record { name = "web"; namespace = "prod"; annotations = some []; replicas = some (pos 12) }

abbrev queue : Workload
queue = record {
  name = "queue";
  namespace = "prod";
  annotations = some [];
  replicas = some (pos 3);
}

abbrev params : StorageClass → Labels
params sc = if sc.name == "shared-sc" then ("shared", "true") ∷ [] else ("shared", "false") ∷ []

abbrev instance_of : List Workload → List Workload → Instance World
instance_of deps ss = record {
  kube_client = kube;
  k8s_ops = no_core World;
  apps_ops = record (no_apps World) {
    get_deployments_using_storage_class = λ _. pure deps;
    get_stateful_sets_using_storage_class = λ _. pure ss;
  };
  storage_ops = record (no_storage World) { get_storage_class_params = λ sc. pure (params sc) };
}

abbrev pub client : Instance World
client = instance_of (web ∷ []) (queue ∷ [])

abbrev pub inventory : Inventory
inventory = record {
  classes = record { name = "shared-sc" } ∷ record { name = "db-sc" } ∷ [];
  params = params;
  deployments = λ _. key_of deployment web ∷ [];
  stateful_sets = λ _. key_of stateful_set queue ∷ [];
}

update-Writes :
    (in_doubt : Bool) (kind : AppKind) (d : Workload) (w : World)
    → Writes view in_doubt kind d w (update kind d w)
update-Writes in_doubt kind d w key = elim (Bool-cases (same_key (key_of kind d) key)) [
  | inl hit ↦
      let at : key_of kind d ≡ key = same_key-eq (key_of kind d) key hit in
      rw (hit) (ground (arith, at))
  | inr miss ↦ rw miss
]

get-ReadsBack :
    (kind : AppKind) (namespace name : String) (w : World)
    → ReadsBack view
        (record { kind = kind; namespace = namespace; name = name })
        w
        (get kind namespace name w)
get-ReadsBack kind namespace name w = go (w key) refl
  where
    key : Key
    key = record { kind = kind; namespace = namespace; name = name }

    go :
        (o : Option (Option Labels × Option ℤ)) → w key ≡ o → ReadsBack view key w (respond key o w)
    go none e = (λ _. ap (stored_at key) e, λ _. refl)
    go (some x) e = (ap (stored_at key) e, refl, refl, λ _. refl)

pub kube-IsAppStore : IsAppStore view kube
kube-IsAppStore = record {
  get_deployment_reads = get-ReadsBack deployment;
  update_deployment_writes = update-Writes true deployment;
  get_stateful_set_reads = get-ReadsBack stateful_set;
  update_stateful_set_writes = update-Writes false stateful_set;
}

pub client-IsListed : IsListed view client inventory
client-IsListed = record {
  list_storage_classes_lists = λ w. (refl, λ _. refl);
  get_storage_class_params_lists = λ sc w. (refl, λ _. refl);
  get_deployments_lists = λ sc w. (refl, λ _. refl);
  get_stateful_sets_lists = λ sc w. (refl, λ _. refl);
}

abbrev pub start : World
start = (update deployment web (update stateful_set queue (λ _. none)).1).1

abbrev parsed : String → Option ℤ → IntOrString
parsed s none = str s
parsed s (some z) = int z

abbrev pub parse : String → IntOrString
parse s = parsed s (atoi s)

pub parse-ReadsCounts : ReadsCounts parse
parse-ReadsCounts s z h e = ap (parsed s) e

scale_shared_apps_to_zero-ScaledDown_example :
    ScaledDown view inventory start (scale_shared_apps_to_zero (bounded_retrier 3) client start)
scale_shared_apps_to_zero-ScaledDown_example =
    scale_shared_apps_to_zero-ScaledDown view (bounded_retrier 3) (bounded_retrier-IsRetry 3) client
      inventory kube-IsAppStore client-IsListed start

pub scaled_down : World
unfolding scale_shared_apps_to_zero get_px_shared_apps gather for_each rounds
scaled_down = (scale_shared_apps_to_zero (bounded_retrier 3) client start).1

pub runs : scale_shared_apps_to_zero (bounded_retrier 3) client start ≡ (ok tt, scaled_down)
unfolding scaled_down
runs = refl

stored :
    view scaled_down (key_of deployment web)
    ≡ some (record web {
      annotations = some (("px/replicas-before-scale-down", "12") ∷ []);
      replicas = some (pos 0);
    })
unfolding scaled_down sprint_int
stored = refl

restore_app-scale_twice_example :
    let s' = changed (scale_stateful_set queue) queue in
    let s'' = changed (scale_stateful_set s') s' in
    (changed (restore_app parse s'') s'').replicas ≡ some (pos 0)
restore_app-scale_twice_example =
    restore_app-scale_twice parse parse-ReadsCounts queue [] (pos 3) refl refl

IsFresh-of :
    (app d : Workload) (r : ℤ)
    → some app ≡ some d
    → IsFresh app [] r
    → (m : Labels) × (c : ℤ) × IsFresh d m c
IsFresh-of app d r found fresh = ([], r, rw (← some-injective app d found) fresh)

pub start-AreFresh : AreFresh view inventory start
start-AreFresh key d h e = elim (Bool-cases (same_key (key_of deployment web) key)) [
  | inl hit ↦
      let at : key_of deployment web ≡ key = same_key-eq (key_of deployment web) key hit in
      IsFresh-of web d (pos 12) (rw (← at) at e)
        (record { annotated = refl; counted = refl; unmarked = refl; in_range = omega arith })
  | inr no_web ↦ elim (Bool-cases (same_key (key_of stateful_set queue) key)) [
    | inl hit ↦
        let at : key_of stateful_set queue ≡ key =
          same_key-eq (key_of stateful_set queue) key hit in
        IsFresh-of queue d (pos 3) (rw (← at) at e)
          (record { annotated = refl; counted = refl; unmarked = refl; in_range = omega arith })
    | inr no_queue ↦ absurd (ground (arith, e, no_web, no_queue))
  ]
]

pub distinct : IsDistinct (shared_stateful_sets inventory)
distinct = unfold shared_stateful_sets shared_classes is_shared in (refl, tt)

restore_scaled_apps_replicas-GivesBack_example :
    GivesBack view start (restore_scaled_apps_replicas (bounded_retrier 3) client parse scaled_down)
restore_scaled_apps_replicas-GivesBack_example =
    restore_scaled_apps_replicas-GivesBack view (bounded_retrier 3) (bounded_retrier-IsRetry 3)
      client inventory kube-IsAppStore client-IsListed parse parse-ReadsCounts start scaled_down
      scaled_down distinct start-AreFresh runs (λ key. refl)
