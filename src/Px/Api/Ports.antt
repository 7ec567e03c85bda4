-- ===== src/Px/Api/Ports.antt =====
-- The ports that an upgrade keeps.
use talisman.Common.{
  ℕ, ◌≡◌, refl, ◌∙◌, eqb, Option, none, some, List, [], ◌∷◌, arith, if◌then◌else◌,
}
use talisman.Kube.Objects.{ServicePort}
use talisman.Px.Api.{TargetPorts, set_port, override_ports}

-- The target of the last of a service's ports that has a number.
abbrev pub last_target : ℕ → List ServicePort → Option ℕ
last_target n [] = none
last_target n (p ∷ rest) = elim (last_target n rest) [
  | none ↦ if eqb p.port n then some p.target_port else none
  | some t ↦ some t
]

abbrev pub or_else : Option ℕ → Option ℕ → Option ℕ
or_else none other = other
or_else (some t) other = some t

-- A port that the service has keeps its target, the last one if it is listed more than once, and
-- any other port has the target that it had before.
pub override_ports-last :
    (listed : List ServicePort) (ports : TargetPorts) (n : ℕ)
    → override_ports listed ports n ≡ or_else (last_target n listed) (ports n)
unfolding override_ports
override_ports-last [] ports n = refl
override_ports-last (p ∷ rest) ports n =
    override_ports-last rest (set_port p.port p.target_port ports) n ∙ ground arith
