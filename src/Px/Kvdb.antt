-- ===== src/Px/Kvdb.antt =====
-- pkg/cluster/px/px.go: `getKVDBClient` and `wipePXKvdb`.
pub mod Endpoints
use talisman.Common.{String, ◌<>◌, ◌==◌, Option, none, some, List, [], ◌∷◌, ◌++◌, if◌then◌else◌}
use talisman.Go.Results.{
  errorf, index_out_of_range, Result, ok, err, panic, Action, pure, raise, of_result, ◌>>=◌, catch,
}
use talisman.Go.Text.{split}
use talisman.Px.Names.{px_kvdb_prefix}
use talisman.Px.Ops.{is_empty}
use talisman.Px.Config.Args.{KvdbOptions}

-- The library of kvdb: the version of a store at an endpoint, a new client, and its `DeleteTree`.
pub record KvdbLibrary (W : Type 0) : Type 1 where
  pub Client : Type 0
  pub version : String → String → KvdbOptions → Action W String
  pub new_client : String → String → List String → KvdbOptions → Action W Client
  pub delete_tree : Client → String → Action W (Unit {0})
  pub etcd_base_version : String
  pub etcd_version3 : String
  pub etcd2_name : String
  pub etcd3_name : String

-- The tokens that are not empty, each after a colon.
unfoldable pub join_tokens : String → List String → String
join_tokens url [] = url
join_tokens url (v ∷ rest) =
    let skipped = join_tokens url rest in
    let joined = join_tokens (url <> (":" <> v)) rest in if v == "" then skipped else joined

-- The URL of an endpoint, of which the first token has been dropped; without a second token the
-- access `urlTokens[1]` panics.
unfoldable pub kvdb_url : List String → Result String
unfolding join_tokens
kvdb_url [] = panic index_out_of_range
kvdb_url (scheme ∷ rest) =
    if scheme == "http"
    then ok (join_tokens "http" rest)
    else if scheme == "https"
    then ok (join_tokens "https" rest)
    else ok (join_tokens "http" (scheme ∷ rest))

abbrev pub drop_first : List String → List String
drop_first [] = []
drop_first (_ ∷ rest) = rest

abbrev pub first_token : List String → String
first_token [] = ""
first_token (t ∷ _) = t

module _ {W : Type 0} where
  -- The loop over the endpoints but for the check of the first.
  unfoldable pub rewrite_rest : List String → Action W (List String)
  unfolding kvdb_url split
  rewrite_rest [] = pure []
  rewrite_rest (url ∷ urls) = do
    u ← of_result (kvdb_url (drop_first (split ":" url)))
    us ← rewrite_rest urls
    pure (u ∷ us)

  unfoldable pub rewrite_endpoints : List String → Action W (List String)
  unfolding rewrite_rest split
  rewrite_endpoints [] = pure []
  rewrite_endpoints (url ∷ urls) =
      let kind = first_token (split ":" url) in
      if kind == "etcd"
      then rewrite_rest (url ∷ urls)
      else raise (errorf "unknown discovery endpoint : %v in %v" (kind ∷ url ∷ urls))

  module _ (K : KvdbLibrary W) where
    -- The first version that is found; the error at the last endpoint is returned.
    unfoldable pub find_version : KvdbOptions → List String → Action W String
    find_version opts [] = pure ""
    find_version opts (url ∷ []) = K.version "etcd-kv" url opts
    find_version opts (url ∷ next ∷ urls) =
        let rest = find_version opts (next ∷ urls) in catch (K.version "etcd-kv" url opts) λ _. rest

    -- `getKVDBClient`
    unfoldable pub get_kvdb_client : List String → KvdbOptions → Action W K.Client
    unfolding rewrite_endpoints find_version
    get_kvdb_client endpoints opts = do
      urls ← rewrite_endpoints endpoints
      version ← find_version opts urls
      if version == K.etcd_base_version
          then K.new_client K.etcd2_name px_kvdb_prefix urls opts
          else if version == K.etcd_version3
          then K.new_client K.etcd3_name px_kvdb_prefix urls opts
          else raise
              (errorf "Unknown kvdb endpoint (%v) and version (%v) " (urls ++ (version ∷ [])))

    -- `wipePXKvdb`
    unfoldable pub wipe_px_kvdb : List String → KvdbOptions → String → Action W (Unit {0})
    unfolding get_kvdb_client
    wipe_px_kvdb endpoints opts cluster_name =
        if is_empty endpoints
        then raise (errorf "endpoints not supplied for wiping KVDB" [])
        else if cluster_name == ""
        then raise (errorf "PX cluster name not supplied for wiping KVDB" [])
        else get_kvdb_client endpoints opts >>= λ client. K.delete_tree client cluster_name
