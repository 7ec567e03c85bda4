-- ===== src/Px/Config/Settings.antt =====
-- The command lines of Portworx, and what they set.
use talisman.Common.{
  String, ◌<>◌, ◌==◌, ◌≡◌, refl, ◌∙◌, Bool, true, false, some, List, [], ◌∷◌, ◌++◌, All,
  if◌then◌else◌,
}
use talisman.Go.Results.{Result, ok}
use talisman.Go.Text.Splitting.{is_plain, split-lacks, split-append}
use talisman.Px.Config.Args.{ArgState, scanned, split_csv, scan_arg, scan_args}

-- The endpoints come with the text that spells them, and a log-in with which of its two flags is
-- written.
pub data Setting : Type 0 where
  internal_etcd : Setting
  cluster_name : String → Setting
  endpoints : String → List String → Setting
  login : Bool → String → String → Setting
  ca_file cert_file cert_key_file acl_token : String → Setting
  other : String → Setting

-- The arguments of a setting.
abbrev pub render : Setting → List String
render internal_etcd = "-b" ∷ []
render (cluster_name v) = "-c" ∷ v ∷ []
render (endpoints csv es) = "-k" ∷ csv ∷ []
render (login short user password) =
    (if short then "-pwd" else "-userpwd") ∷ (user <> (":" <> password)) ∷ []
render (ca_file v) = "-ca" ∷ v ∷ []
render (cert_file v) = "-cert" ∷ v ∷ []
render (cert_key_file v) = "-key" ∷ v ∷ []
render (acl_token v) = "-acl" ∷ v ∷ []
render (other v) = v ∷ []

abbrev pub command_line : List Setting → List String
command_line [] = []
command_line (x ∷ xs) = render x ++ command_line xs

-- What it sets.
abbrev pub set : Setting → ArgState → ArgState
set internal_etcd s = record s { using_internal_etcd = true }
set (cluster_name v) s = record s { cluster_name = v }
set (endpoints csv es) s = record s { endpoints = es }
set (login short user password) s = record s {
  opts = record s.opts { username = some user; password = some password };
}
set (ca_file v) s = record s { opts = record s.opts { ca_file = some v } }
set (cert_file v) s = record s { opts = record s.opts { cert_file = some v } }
set (cert_key_file v) s = record s { opts = record s.opts { cert_key_file = some v } }
set (acl_token v) s = record s { opts = record s.opts { acl_token = some v } }
set (other v) s = s

-- A later setting overrides an earlier one.
abbrev pub set_all : List Setting → ArgState → ArgState
set_all [] s = s
set_all (x ∷ xs) s = set_all xs (set x s)

-- A text that is none of the flags.
abbrev pub IsValue : String → Type 0
IsValue v =
    All (λ flag. (v == flag) ≡ false)
      ("-b" ∷ "-c" ∷ "-k" ∷ "-pwd" ∷ "-userpwd" ∷ "-ca" ∷ "-cert" ∷ "-key" ∷ "-acl" ∷ [])

module _ (read_all : String → Result (List (List String))) where
  -- Values are not flags, the endpoints are read from their text, and neither part of a log-in has a
  -- colon.
  abbrev pub IsWritten : Setting → Type 0
  IsWritten internal_etcd = Unit
  IsWritten (cluster_name v) = IsValue v
  IsWritten (endpoints csv es) = IsValue csv × (split_csv read_all csv ≡ ok es)
  IsWritten (login short user password) =
      IsValue (user <> (":" <> password)) × (is_plain user ≡ true) × (is_plain password ≡ true)
  IsWritten (ca_file v) = IsValue v
  IsWritten (cert_file v) = IsValue v
  IsWritten (cert_key_file v) = IsValue v
  IsWritten (acl_token v) = IsValue v
  IsWritten (other v) = IsValue v

  scan_arg-value :
      (v : String) (rest : List String) (s : ArgState)
      → IsValue v
      → scan_arg read_all v rest s ≡ scanned s
  unfolding scan_arg
  scan_arg-value v rest s (b, (c, (k, (pwd, (userpwd, (ca, (cert, (key, (acl, _))))))))) =
      rw (b, c, k, pwd, userpwd, ca, cert, key, acl) refl

  -- The value of a setting is passed over when it is looked at as an argument.
  scan_args-value :
      (v : String) (rest : List String) (s : ArgState)
      → IsValue v
      → scan_args read_all (v ∷ rest) s ≡ scan_args read_all rest s
  unfolding scan_args
  scan_args-value v rest s h = rw (scan_arg-value v rest s h) refl

  scan_args-render :
      (x : Setting) (rest : List String) (s : ArgState)
      → IsWritten x
      → scan_args read_all (render x ++ rest) s ≡ scan_args read_all rest (set x s)
  unfolding scan_args scan_arg
  scan_args-render internal_etcd rest s h = refl
  scan_args-render (cluster_name v) rest s h = scan_args-value v rest _ h
  scan_args-render (endpoints csv es) rest s (h, e) = rw e (scan_args-value csv rest _ h)
  scan_args-render (login true user password) rest s (h, u, p) =
      rw (split-append ":" user password u, split-lacks ":" password p) (scan_args-value _ rest _ h)
  scan_args-render (login false user password) rest s (h, u, p) =
      rw (split-append ":" user password u, split-lacks ":" password p) (scan_args-value _ rest _ h)
  scan_args-render (ca_file v) rest s h = scan_args-value v rest _ h
  scan_args-render (cert_file v) rest s h = scan_args-value v rest _ h
  scan_args-render (cert_key_file v) rest s h = scan_args-value v rest _ h
  scan_args-render (acl_token v) rest s h = scan_args-value v rest _ h
  scan_args-render (other v) rest s h = scan_args-value v rest s h

  -- A command line that spells a list of settings is scanned to what they set one after the other,
  -- whatever their order and number, if no value is spelled like a flag, the texts of endpoints are
  -- read as those endpoints, and no user name or password has a colon.
  pub scan_args-command_line :
      (xs : List Setting) (s : ArgState)
      → All IsWritten xs
      → scan_args read_all (command_line xs) s ≡ scanned (set_all xs s)
  unfolding scan_args
  scan_args-command_line [] s h = refl
  scan_args-command_line (x ∷ xs) s (hx, hs) =
      scan_args-render x (command_line xs) s hx ∙ scan_args-command_line xs (set x s) hs
