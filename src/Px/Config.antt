-- ===== src/Px/Config.antt =====
-- pkg/cluster/px/px.go: `parseConfigFromDaemonset` and `extractEnv`.
pub mod Args
pub mod Found
pub mod Settings
use Prim.Native.Char.{Char}
use talisman.Common.{
  String, ◌==◌, starts_with, Bool, true, false, not, ◌&&◌, Option, none, some, List, [], ◌∷◌, map,
  if◌then◌else◌,
}
use talisman.Go.Results.{
  Error, no_px_daemonset, using_internal_etcd, errorf, wrapped, Panic, Result, ok, err, panic,
  Action, pure, raise, crash, continue_with, ◌>>=◌, catch,
}
use talisman.Go.Text.{same_char}
use talisman.Kube.Objects.{
  Affinity, SecretKeySelector, EnvVarSource, secret_key_ref, other_source, EnvVar, Volume,
  Container, DaemonSet,
}
use talisman.K8sutils.Pods.{get_secret}
use talisman.Px.Names.{px_daemonset_container_name, pks_persistent_store_root}
use talisman.Px.Ops.{PlatformType, platform_type_default, platform_type_pks, PxClusterOps, is_empty}
use talisman.Px.Daemonsets.{get_px_daemonsets}
use talisman.Px.Config.Args.{
  KvdbOptions, no_options, ArgState, no_args, Outcome, scanned, stopped, args_crashed, scan_args,
  text_of,
}

-- What is returned, the error included: some values come with an error.
pub record Parsed : Type 0 where
  pub endpoints : List String
  pub opts : KvdbOptions
  pub cluster_name : String
  pub platform : PlatformType
  pub affinity : Affinity
  pub error : Option Error

-- `nil, nil, "", platformTypeDefault, nil, err`
abbrev pub failed : Error → Parsed
failed e = record {
  endpoints = [];
  opts = no_options;
  cluster_name = "";
  platform = platform_type_default;
  affinity = none;
  error = some e;
}

abbrev is_pks_path : Option String → Bool
is_pks_path none = false
is_pks_path (some path) = starts_with path pks_persistent_store_root

-- The loop over the volumes.
unfoldable pub detect_platform : List Volume → PlatformType
detect_platform [] = platform_type_default
detect_platform (v ∷ rest) =
    if is_pks_path v.host_path && v.name == "optpwx"
    then platform_type_pks
    else detect_platform rest

-- The text after `$`, for a text of at least two characters that begins with it.
unfoldable pub variable_name : String → Option String
variable_name String.[] = none
variable_name (String.◌∷◌ c String.[]) = none
variable_name (String.◌∷◌ c (String.◌∷◌ d s)) =
    if same_char c "$" then some (String.◌∷◌ d s) else none

abbrev begins_with_dollar : String → Bool
begins_with_dollar String.[] = false
begins_with_dollar (String.◌∷◌ c _) = same_char c "$"

-- The container of Portworx, the first one of that name.
abbrev pub px_container : List Container → Option Container
px_container [] = none
px_container (c ∷ cs) =
    let rest = px_container cs in if c.name == px_daemonset_container_name then some c else rest

abbrev pub env_of : Option Container → List EnvVar
env_of none = []
env_of (some c) = c.env

abbrev pub scan_container : (String → Result (List (List String))) → Option Container → Outcome
scan_container read_all none = scanned no_args
scan_container read_all (some c) = scan_args read_all c.args no_args

abbrev pub parsed_as : DaemonSet → ArgState → KvdbOptions → List String → Option Error → Parsed
parsed_as ds s opts endpoints e = record {
  endpoints = endpoints;
  opts = opts;
  cluster_name = s.cluster_name;
  platform = detect_platform ds.pod.volumes;
  affinity = ds.pod.affinity;
  error = e;
}

-- The last checks; the containers are printed by their names.
unfoldable pub conclude : DaemonSet → ArgState → KvdbOptions → Parsed
unfolding detect_platform
conclude ds s opts =
    let names = map (λ (c : Container). c.name) ds.pod.containers in
    if s.using_internal_etcd
    then parsed_as ds s opts s.endpoints (some using_internal_etcd)
    else if is_empty s.endpoints
    then parsed_as ds s opts []
        (some (errorf "failed to get kvdb endpoint from daemonset containers: %v" names))
    else if s.cluster_name == ""
    then parsed_as ds s opts s.endpoints
        (some (errorf "failed to get cluster name from daemonset containers: %v" names))
    else parsed_as ds s opts s.endpoints none

module _ {W : Type 0} (ops : PxClusterOps W) where
  -- What the source of a variable gives. The selector is printed by its name and key.
  abbrev pub from_source : String → EnvVarSource → String → Action W String
  from_source var_name (secret_key_ref sel) namespace =
      catch (get_secret ops.utils (some sel) namespace)
        λ e. raise (wrapped "cluld not extract %q secret: %s" (sel.name ∷ sel.key ∷ []) e)
  from_source var_name other_source namespace =
      raise (errorf "could not de-reference %q" (var_name ∷ []))

  abbrev pub from_optional :
      String → Option EnvVarSource → String → Action W String → Action W String
  from_optional var_name none namespace more = more
  from_optional var_name (some source) namespace more = from_source var_name source namespace

  -- The loop over the variables; one without a value and without a source is passed over.
  unfoldable pub look_up_env : String → String → List EnvVar → String → Action W String
  look_up_env var_name look4 [] namespace = pure var_name
  look_up_env var_name look4 (v ∷ rest) namespace =
      let more = look_up_env var_name look4 rest namespace in
      if v.name == look4
      then if not (v.value == "")
        then pure v.value
        else from_optional var_name v.value_from namespace more
      else more

  abbrev pub extract_named : String → Option String → List EnvVar → String → Action W String
  extract_named var_name none spec_env namespace = pure var_name
  extract_named var_name (some look4) spec_env namespace =
      look_up_env var_name look4 spec_env namespace

  -- `extractEnv`
  unfoldable pub extract_env : String → List EnvVar → String → Action W String
  unfolding variable_name look_up_env
  extract_env var_name spec_env namespace =
      extract_named var_name (variable_name var_name) spec_env namespace

  abbrev extract_both : KvdbOptions → List EnvVar → String → Action W KvdbOptions
  extract_both opts env ns = do
    username ← extract_env (text_of opts.username) env ns
    password ← extract_env (text_of opts.password) env ns
    pure (record opts { username = some username; password = some password })

  -- The variables in the user name and the password; only a user name that begins with `$` is
  -- looked up, and the password with it.
  unfoldable pub extract_credentials : KvdbOptions → List EnvVar → String → Action W KvdbOptions
  unfolding extract_env
  extract_credentials opts env ns =
      let extracted = extract_both opts env ns in
      if begins_with_dollar (text_of opts.username) then extracted else pure opts

  abbrev pub with_credentials : DaemonSet → ArgState → Result KvdbOptions → Action W Parsed
  with_credentials ds s (ok opts) = pure (conclude ds s opts)
  with_credentials ds s (err e) = pure (failed e)
  with_credentials ds s (panic p) = crash p

  abbrev pub after_scan : DaemonSet → List EnvVar → Outcome → Action W Parsed
  after_scan ds env (scanned s) w =
      let (r, w') = extract_credentials s.opts env ds.namespace w in with_credentials ds s r w'
  after_scan ds env (stopped name e) w = (
    ok (record (failed e) {
      cluster_name = name;
      platform = detect_platform ds.pod.volumes;
      affinity = ds.pod.affinity;
    }),
    w,
  )
  after_scan ds env (args_crashed p) w = (panic p, w)

  abbrev pub parse_listed :
      (String → Result (List (List String))) → Result (List DaemonSet) → Action W Parsed
  parse_listed read_all (ok []) = pure (failed no_px_daemonset)
  parse_listed read_all (ok (ds ∷ _)) =
      let c = px_container ds.pod.containers in after_scan ds (env_of c) (scan_container read_all c)
  parse_listed read_all (err e) = pure (failed e)
  parse_listed read_all (panic p) = crash p

  -- `parseConfigFromDaemonset`, with the reader of CSV text.
  unfoldable pub parse_config_from_daemonset :
      (String → Result (List (List String))) → Action W Parsed
  unfolding get_px_daemonsets scan_args extract_credentials conclude
  parse_config_from_daemonset read_all w =
      let (r, w') = get_px_daemonsets ops w in parse_listed read_all r w'
