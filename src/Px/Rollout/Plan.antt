-- ===== src/Px/Rollout/Plan.antt =====
-- What the update task of `upgradePX` makes of a daemon set that it has read.
use talisman.Common.{
  String, ◌==◌, ◌≡◌, refl, ap, inl, inr, Bool, true, false, not, ◌||◌, List, [], ◌∷◌, eq_refl,
  eq_iff, Bool-cases, if◌then◌else◌,
}
use talisman.Kube.Objects.{Container}
use talisman.Px.Names.{px_daemonset_container_name, px_image_env_key}
use talisman.Px.Env.{get_env}

-- What is found of the first container of Portworx.
pub data Plan : Type 0 where
  -- there is none
  no_px_container : Plan
  -- its image is set by the environment variable, to this text
  image_by_env : String → Plan
  -- it has the image already
  up_to_date : Plan
  -- the containers with the new image in its place
  new_containers : List Container → Plan

abbrev pub after_container : Container → Plan → Plan
after_container c no_px_container = no_px_container
after_container c (image_by_env s) = image_by_env s
after_container c up_to_date = up_to_date
after_container c (new_containers cs) = new_containers (c ∷ cs)

-- The loop over the containers, which ends at the first one of Portworx.
unfoldable pub plan : String → List Container → Plan
unfolding get_env
plan image [] = no_px_container
plan image (c ∷ cs) =
    let rest = after_container c (plan image cs) in
    let old_px_image = get_env c.env px_image_env_key in
    if c.name == px_daemonset_container_name
    then if not (old_px_image == "")
      then image_by_env old_px_image
      else if c.image == image
      then up_to_date
      else new_containers (record c { image = image } ∷ cs)
    else rest

-- The image of the first container of Portworx is this one.
unfoldable pub runs_image : String → List Container → Bool
runs_image image [] = false
runs_image image (c ∷ cs) = if c.name == "portworx" then c.image == image else runs_image image cs

-- The containers but for the image of the first one of Portworx.
unfoldable pub with_image : String → List Container → List Container
with_image image [] = []
with_image image (c ∷ cs) =
    if c.name == "portworx" then record c { image = image } ∷ cs else c ∷ with_image image cs

abbrev pub has_px_container : List Container → Bool
has_px_container [] = false
has_px_container (c ∷ cs) = c.name == "portworx" || has_px_container cs

-- The image that the environment of the first container of Portworx sets, or the empty text.
unfoldable pub env_image : List Container → String
unfolding get_env
env_image [] = ""
env_image (c ∷ cs) = if c.name == "portworx" then get_env c.env "PX_IMAGE" else env_image cs

-- What a plan says of the containers it was made for.
abbrev pub Sound : String → List Container → Plan → Type 0
Sound image cs no_px_container = has_px_container cs ≡ false
Sound image cs (image_by_env s) = (env_image cs ≡ s) × ((s == "") ≡ false)
Sound image cs up_to_date = (runs_image image cs ≡ true) × (env_image cs ≡ "")
Sound image cs (new_containers cs') =
    (cs' ≡ with_image image cs)
    × (runs_image image cs' ≡ true)
    × (runs_image image cs ≡ false)
    × (env_image cs ≡ "")

after_container-Sound :
    (image : String) (c : Container) (cs : List Container) (p : Plan)
    → (c.name == "portworx") ≡ false
    → Sound image cs p
    → Sound image (c ∷ cs) (after_container c p)
unfolding runs_image with_image env_image
after_container-Sound image c cs no_px_container not_px h = rw not_px h
after_container-Sound image c cs (image_by_env s) not_px h = rw not_px h
after_container-Sound image c cs up_to_date not_px h = rw not_px h
after_container-Sound image c cs (new_containers cs') not_px (e, new, old, free) =
    rw not_px (ap (λ ds. c ∷ ds) e, new, old, free)

-- The plan for the containers of a daemon set says that none is of Portworx only where that is
-- so; that the environment variable sets the image only where it does for the first one of
-- Portworx, to the text that the plan has, which is not empty; that the image is there already
-- only where that container has it and the variable does not set it; and else, where the variable
-- does not set it, the new containers differ from the old ones in the image of that container
-- alone, which was not the new one and is now.
pub plan-Sound : (image : String) (cs : List Container) → Sound image cs (plan image cs)
unfolding plan runs_image with_image env_image
plan-Sound image [] = refl
plan-Sound image (c ∷ cs) = elim (Bool-cases (c.name == "portworx")) [
  | inl px ↦ rw px (elim (Bool-cases (get_env c.env "PX_IMAGE" == "")) [
    | inl free ↦
        let unset = (eq_iff (get_env c.env "PX_IMAGE") "").0 free in
        rw free (elim (Bool-cases (c.image == image)) [
          | inl same ↦ rw same (rw px (same, unset))
          | inr other ↦ rw other (rw px (refl, eq_refl image, other, unset))
        ])
    | inr set ↦ rw set (rw px (refl, set))
  ])
  | inr not_px ↦
      rw not_px (after_container-Sound image c cs (plan image cs) not_px (plan-Sound image cs))
]
