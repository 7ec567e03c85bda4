-- ===== src/Tests/Settings.antt =====
-- A command line of Portworx that is read back.
use talisman.Common.{String, ◌≡◌, true, List, [], ◌∷◌, All, arith}
use talisman.Go.Results.{Result, ok}
use talisman.Go.Text.{split}
use talisman.Go.Text.Splitting.{lacks}
use talisman.Px.Config.Args.{no_args, scanned, scan_args, split_csv}
use talisman.Px.Config.Settings.{
  Setting, cluster_name, endpoints, login, ca_file, other, command_line, set_all, IsWritten,
  scan_args-command_line,
}

abbrev read_all : String → Result (List (List String))
read_all s = ok (split "," s ∷ [])

abbrev settings : List Setting
settings =
    cluster_name "c1"
    ∷ endpoints "etcd:http://h:2379" ("etcd:http://h:2379" ∷ [])
    ∷ other "-s"
    ∷ other "/dev/sdb"
    ∷ login true "root" "secret"
    ∷ ca_file "/etc/pwx/ca.crt"
    ∷ cluster_name "c2"
    ∷ []

settings-IsWritten : All (IsWritten read_all) settings
unfolding split split_csv lacks
settings-IsWritten = ground arith

scan_args-command_line_example :
    scan_args read_all (command_line settings) no_args ≡ scanned (set_all settings no_args)
scan_args-command_line_example = scan_args-command_line read_all settings no_args settings-IsWritten
