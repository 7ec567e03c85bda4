-- ===== src/Px/Config/Args.antt =====
-- pkg/cluster/px/px.go: the arguments of the container of Portworx, and `splitCSV`.
use talisman.Common.{
  String, ◌==◌, Bool, true, false, ◌||◌, Option, none, some, List, [], ◌∷◌, if◌then◌else◌,
}
use talisman.Go.Results.{Error, errorf, Panic, index_out_of_range, Result, ok, err, panic}
use talisman.Go.Text.{split}

-- The map of options for kvdb, by the keys that the code uses.
pub record KvdbOptions : Type 0 where
  pub username : Option String
  pub password : Option String
  pub ca_file : Option String
  pub cert_file : Option String
  pub cert_key_file : Option String
  pub acl_token : Option String

abbrev pub no_options : KvdbOptions
no_options = record {
  username = none;
  password = none;
  ca_file = none;
  cert_file = none;
  cert_key_file = none;
  acl_token = none;
}

-- The text under a key, the empty one where it is missing.
abbrev pub text_of : Option String → String
text_of none = ""
text_of (some s) = s

-- `splitCSV`, over `csv.Reader.ReadAll` with `TrimLeadingSpace`.
abbrev pub one_record : Result (List (List String)) → Result (List String)
one_record (ok []) = ok []
one_record (ok (r ∷ [])) = ok r
one_record (ok (_ ∷ _ ∷ _)) = err (errorf "Multiline CSV not supported" [])
one_record (err e) = err e
one_record (panic p) = panic p

unfoldable pub split_csv : (String → Result (List (List String))) → String → Result (List String)
split_csv read_all s = one_record (read_all s)

-- The variables that the loop over the arguments sets.
pub record ArgState : Type 0 where
  pub using_internal_etcd : Bool
  pub endpoints : List String
  pub opts : KvdbOptions
  pub cluster_name : String

abbrev pub no_args : ArgState
no_args = record {
  using_internal_etcd = false;
  endpoints = [];
  opts = no_options;
  cluster_name = "";
}

-- The end of the loop, a return out of it with the name of the cluster so far, or a panic.
pub data Outcome : Type 0 where
  scanned : ArgState → Outcome
  stopped : String → Error → Outcome
  args_crashed : Panic → Outcome

abbrev pub set_endpoints : Result (List String) → ArgState → Outcome
set_endpoints (ok es) s = scanned (record s { endpoints = es })
set_endpoints (err e) s = stopped s.cluster_name e
set_endpoints (panic p) s = args_crashed p

abbrev pub set_credentials : String → List String → ArgState → Outcome
set_credentials arg (username ∷ password ∷ _) s =
    scanned
      (record s { opts = record s.opts { username = some username; password = some password } })
set_credentials arg _ s =
    stopped s.cluster_name (errorf "failed to parse kvdb username and password: %s" (arg ∷ []))

abbrev pub set_option : (KvdbOptions → KvdbOptions) → ArgState → Outcome
set_option f s = scanned (record s { opts = f s.opts })

-- `c.Args[i+1]`
abbrev pub with_next : List String → (String → ArgState → Outcome) → ArgState → Outcome
with_next [] f s = args_crashed index_out_of_range
with_next (value ∷ _) f s = f value s

module _ (read_all : String → Result (List (List String))) where
  -- The switch on one argument; the value that belongs to it is the next argument.
  unfoldable pub scan_arg : String → List String → ArgState → Outcome
  unfolding split_csv split
  scan_arg arg rest s =
      if arg == "-b"
      then scanned (record s { using_internal_etcd = true })
      else if arg == "-c"
      then with_next rest (λ v s. scanned (record s { cluster_name = v })) s
      else if arg == "-k"
      then with_next rest (λ v s. set_endpoints (split_csv read_all v) s) s
      else if arg == "-pwd" || arg == "-userpwd"
      then with_next rest (λ v s. set_credentials v (split ":" v) s) s
      else if arg == "-ca"
      then with_next rest (λ v. set_option λ o. record o { ca_file = some v }) s
      else if arg == "-cert"
      then with_next rest (λ v. set_option λ o. record o { cert_file = some v }) s
      else if arg == "-key"
      then with_next rest (λ v. set_option λ o. record o { cert_key_file = some v }) s
      else if arg == "-acl"
      then with_next rest (λ v. set_option λ o. record o { acl_token = some v }) s
      else scanned s

  abbrev pub after_arg : (ArgState → Outcome) → Outcome → Outcome
  after_arg more (scanned s) = more s
  after_arg more (stopped name e) = stopped name e
  after_arg more (args_crashed p) = args_crashed p

  -- The loop over the arguments; a value is looked at as an argument again.
  unfoldable pub scan_args : List String → ArgState → Outcome
  unfolding scan_arg
  scan_args [] s = scanned s
  scan_args (arg ∷ rest) s = after_arg (scan_args rest) (scan_arg arg rest s)
