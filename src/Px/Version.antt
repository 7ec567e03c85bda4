-- ===== src/Px/Version.antt =====
-- pkg/cluster/px/px.go: `parsePXVersion`.
pub mod Laws
use talisman.Common.{String, ◌<>◌, ◌==◌, Option, none, some, List, [], ◌∷◌, if◌then◌else◌}
use talisman.Common.Options.{◌>>=◌}
use talisman.Go.Results.{errorf, Result, ok, err}
use talisman.Go.Text.{span_digits, after_char}

-- The digits that a text begins with, at least one, and the rest.
unfoldable pub read_number : String → Option (String × String)
unfolding span_digits
read_number s =
    let (digits, rest) = span_digits s in if digits == "" then none else some (digits, rest)

-- The submatch of `^(\d+\.\d+\.\d+).*`
unfoldable pub match_px_version : String → Option String
unfolding read_number
match_px_version version = do
  (major, version) ← read_number version
  version ← after_char "." version
  (minor, version) ← read_number version
  version ← after_char "." version
  (patch, _) ← read_number version
  some (major <> ("." <> (minor <> ("." <> patch))))

abbrev pub or_failure : String → Option String → Result String
or_failure version none = err (errorf "failed to get PX version from %s" (version ∷ []))
or_failure version (some v) = ok v

-- `parsePXVersion`
unfoldable pub parse_px_version : String → Result String
unfolding match_px_version
parse_px_version version = or_failure version (match_px_version version)
