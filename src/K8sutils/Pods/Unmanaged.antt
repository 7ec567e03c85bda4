-- ===== src/K8sutils/Pods/Unmanaged.antt =====
-- Which clusters have an unmanaged pod that uses Portworx.
use talisman.Common.{
  String, ◌==◌, ◌≡◌, refl, Bool, true, false, not, ◌&&◌, ◌||◌, Option, none, some, List, [], ◌∷◌,
  arith, if◌then◌else◌,
}
use talisman.Go.Results.{
  api, other_reason, ok, err, Result, Action, ◌>>=◌, pure, raise, catch, gather,
}
use talisman.Kube.Objects.{Pod, PodVolume, PersistentVolumeClaim, PersistentVolume}
use talisman.K8sutils.Instance.{Instance, px_storage_provisioner_name}
use talisman.K8sutils.Pods.{
  lacks_storage_class, is_claim_using_px, is_source_using_px, is_any_volume_using_px,
  is_pod_using_px_volume, get_pods_using_px, unmanaged_pods, is_any, is_any_px_app_pod_unmanaged,
}

-- The pods of a cluster, and what there is to know of their volumes; `provisioner` is `none` for a
-- claim without a storage class.
pub record PodInventory : Type 0 where
  pub pods : List Pod
  pub claim : String → String → PersistentVolumeClaim
  pub volume : String → PersistentVolume
  pub provisioner : PersistentVolumeClaim → Option String
  pub managed : Pod → Bool

abbrev pub is_provisioned_by_px : Option String → Bool
is_provisioned_by_px none = false
is_provisioned_by_px (some s) = s == "kubernetes.io/portworx-volume"

module _ (inv : PodInventory) where
  abbrev pub is_px_claim : PersistentVolumeClaim → Bool
  is_px_claim pvc =
      let pv = inv.volume pvc.volume_name in
      pv.is_portworx_volume || is_provisioned_by_px (inv.provisioner pvc)

  abbrev pub is_px_source : String → Option String → Bool
  is_px_source namespace none = false
  is_px_source namespace (some claim_name) = is_px_claim (inv.claim claim_name namespace)

  abbrev pub has_px_volume : String → List PodVolume → Bool
  has_px_volume namespace [] = false
  has_px_volume namespace (v ∷ rest) =
      v.is_portworx_volume || is_px_source namespace v.claim_name || has_px_volume namespace rest

  -- A pod that uses Portworx and that no controller manages.
  abbrev pub is_unmanaged_px_pod : Pod → Bool
  is_unmanaged_px_pod p = has_px_volume p.namespace p.volumes && not (inv.managed p)

  abbrev pub has_unmanaged_px_pod : List Pod → Bool
  has_unmanaged_px_pod [] = false
  has_unmanaged_px_pod (p ∷ rest) = is_unmanaged_px_pod p || has_unmanaged_px_pod rest

  module _ {W : Type 0} (k : Instance W) where
    -- The answer of the client about the provisioner of a claim.
    abbrev pub Answers : Option String → W → Result String × W → Type 0
    Answers (some s) w o = o ≡ (ok s, w)
    Answers none w o =
        (text : String) × (lacks_storage_class (api other_reason text) ≡ true)
        × (o ≡ (err (api other_reason text), w))

    -- The clients report what is in the inventory, and change nothing.
    pub record Reports : Type 0 where
      pub reports_pods : (w : W) → k.k8s_ops.get_pods "" w ≡ (ok inv.pods, w)
      pub reports_claim :
          (name namespace : String) (w : W)
          → k.k8s_ops.get_persistent_volume_claim name namespace w
            ≡ (ok (inv.claim name namespace), w)
      pub reports_volume :
          (name : String) (w : W)
          → k.k8s_ops.get_persistent_volume name w ≡ (ok (inv.volume name), w)
      pub reports_provisioner :
          (pvc : PersistentVolumeClaim) (w : W)
          → Answers (inv.provisioner pvc) w (k.k8s_ops.get_storage_provisioner_for_pvc pvc w)
      pub reports_managed :
          (p : Pod) (w : W) → k.k8s_ops.is_pod_being_managed p w ≡ (inv.managed p, w)

    module _ (R : Reports) where
      is_claim_using_px-reports :
          (name namespace : String) (w : W)
          → is_claim_using_px k name namespace w ≡ (ok (is_px_claim (inv.claim name namespace)), w)
      unfolding is_claim_using_px
      is_claim_using_px-reports name namespace w = rw (R.reports_claim name namespace w) (
          rw (R.reports_volume pvc.volume_name w) (
            go (inv.volume pvc.volume_name).is_portworx_volume (inv.provisioner pvc)
              (R.reports_provisioner pvc w)))
        where
          pvc : PersistentVolumeClaim
          pvc = inv.claim name namespace

          by_provisioner : Action W Bool
          by_provisioner =
              catch
                (k.k8s_ops.get_storage_provisioner_for_pvc pvc >>= λ sc_name.
                  pure (sc_name == px_storage_provisioner_name))
                λ e. if lacks_storage_class e then pure false else raise e

          go :
              (direct : Bool) (p : Option String)
              → Answers p w (k.k8s_ops.get_storage_provisioner_for_pvc pvc w)
              → (if direct then pure true else by_provisioner) w
                ≡ (ok (direct || is_provisioned_by_px p), w)
          go true p h = refl
          go false none (text, lacks, e) = rw e (rw lacks refl)
          go false (some s) e = rw e refl

      is_any_volume_using_px-reports :
          (namespace : String) (volumes : List PodVolume) (w : W)
          → is_any_volume_using_px k namespace volumes w ≡ (ok (has_px_volume namespace volumes), w)
      unfolding is_any_volume_using_px
      is_any_volume_using_px-reports namespace [] w = refl
      is_any_volume_using_px-reports namespace (v ∷ rest) w =
          go v.is_portworx_volume v.claim_name (is_any_volume_using_px-reports namespace rest w)
        where
          more : Action W Bool
          more = is_any_volume_using_px k namespace rest

          continue : Bool → Action W Bool
          continue found = if found then pure true else more

          found_or :
              (b : Bool)
              → more w ≡ (ok (has_px_volume namespace rest), w)
              → continue b w ≡ (ok (b || has_px_volume namespace rest), w)
          found_or true h = refl
          found_or false h = h

          go :
              (direct : Bool) (claim_name : Option String)
              → more w ≡ (ok (has_px_volume namespace rest), w)
              → (if direct
                    then pure true
                    else (is_source_using_px k claim_name namespace >>= continue))
                  w
                ≡ (
                  ok (direct || is_px_source namespace claim_name || has_px_volume namespace rest),
                  w,
                )
          go true claim_name h = refl
          go false none h = h
          go false (some name) h =
              rw (is_claim_using_px-reports name namespace w)
                (found_or (is_px_claim (inv.claim name namespace)) h)

      abbrev px_pods : List Pod → List Pod
      px_pods [] = []
      px_pods (p ∷ rest) =
          if has_px_volume p.namespace p.volumes then p ∷ px_pods rest else px_pods rest

      abbrev collect : Pod → Action W (List Pod)
      collect pod =
          is_pod_using_px_volume k pod >>= λ using_px. pure (if using_px then pod ∷ [] else [])

      gather-collect : (pods : List Pod) (w : W) → gather pods collect w ≡ (ok (px_pods pods), w)
      unfolding gather is_pod_using_px_volume
      gather-collect [] w = refl
      gather-collect (p ∷ rest) w =
          rw (is_any_volume_using_px-reports p.namespace p.volumes w)
            (rw (gather-collect rest w) (ground arith))

      unmanaged_pods-is_any :
          (pods : List Pod) (w : W)
          → (is_any k (unmanaged_pods k (px_pods pods) w).0 ≡ has_unmanaged_px_pod pods)
            × ((unmanaged_pods k (px_pods pods) w).1 ≡ w)
      unfolding unmanaged_pods
      unmanaged_pods-is_any [] w = (refl, refl)
      unmanaged_pods-is_any (p ∷ rest) w =
          go (has_px_volume p.namespace p.volumes) (unmanaged_pods-is_any rest)
        where
          joined :
              (others : List Pod) (managed : Bool)
              → is_any k others ≡ has_unmanaged_px_pod rest
              → is_any k (if managed then others else p ∷ others)
                ≡ (not managed || has_unmanaged_px_pod rest)
          joined others true h = h
          joined others false h = refl

          go :
              (uses : Bool)
              → ((w' : W)
                  → (is_any k (unmanaged_pods k (px_pods rest) w').0 ≡ has_unmanaged_px_pod rest)
                    × ((unmanaged_pods k (px_pods rest) w').1 ≡ w'))
              → (is_any k (unmanaged_pods k (if uses then p ∷ px_pods rest else px_pods rest) w).0
                  ≡ ((uses && not (inv.managed p)) || has_unmanaged_px_pod rest))
                × ((unmanaged_pods k (if uses then p ∷ px_pods rest else px_pods rest) w).1 ≡ w)
          go false h = h w
          go true h = (
            rw (R.reports_managed p w)
                (joined (unmanaged_pods k (px_pods rest) w).0 (inv.managed p) (h w).0),
            rw (R.reports_managed p w, unmanaged_pods) (h w).1,
          )

      -- Where the clients report what is in the cluster, `is_any_px_app_pod_unmanaged` answers
      -- without an error whether some pod mounts a volume of Portworx (directly, through a claim of
      -- one, or through a claim of a class that Portworx provisions) while no controller manages it.
      pub is_any_px_app_pod_unmanaged_correct :
          (w : W) → is_any_px_app_pod_unmanaged k w ≡ (ok (has_unmanaged_px_pod inv.pods), w)
      unfolding is_any_px_app_pod_unmanaged get_pods_using_px
      is_any_px_app_pod_unmanaged_correct w = rw (R.reports_pods w) (
          rw (gather-collect inv.pods w) (
            rw (unmanaged_pods-is_any inv.pods w).0 (rw (unmanaged_pods-is_any inv.pods w).1 refl)))
