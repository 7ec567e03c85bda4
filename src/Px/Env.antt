-- ===== src/Px/Env.antt =====
-- pkg/cluster/px/px.go: `setEnv` and `getEnv`.
use talisman.Common.{String, ◌==◌, ◌≡◌, refl, none, List, [], ◌∷◌, arith, eq_iff, if◌then◌else◌}
use talisman.Kube.Objects.{EnvVar}

-- `getEnv`: the empty text where the variable is missing.
unfoldable pub get_env : List EnvVar → String → String
get_env [] key = ""
get_env (e ∷ es) key = if e.name == key then e.value else get_env es key

-- `setEnv`: the first variable of that name is changed, or one is appended.
unfoldable pub set_env : List EnvVar → String → String → List EnvVar
set_env [] key value = record { name = key; value = value; value_from = none } ∷ []
set_env (e ∷ es) key value =
    if e.name == key then record e { value = value } ∷ es else e ∷ set_env es key value

-- After a variable is set, its value is read back, and every other variable reads as before.
pub get_env-set_env :
    (es : List EnvVar) (key value other : String)
    → get_env (set_env es key value) other ≡ (if key == other then value else get_env es other)
unfolding get_env set_env
get_env-set_env [] key value other = refl
get_env-set_env (e ∷ es) key value other = ground (
  arith,
  eq_iff e.name key,
  eq_iff e.name other,
  eq_iff key other,
  get_env-set_env es key value other,
)
