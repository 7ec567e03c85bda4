-- ===== src/K8sutils/Pods.antt =====
-- pkg/k8sutils/k8sutils.go: the pods that use Portworx volumes, and secrets.
pub mod Unmanaged
use talisman.Common.{
  String, ◌==◌, Bool, true, false, not, Option, none, some, List, [], ◌∷◌, lookup, if◌then◌else◌,
}
use talisman.Go.Results.{Error, api, wrapped, Action, pure, raise, ◌>>=◌, catch, gather}
use talisman.Go.Text.{contains}
use talisman.Kube.Objects.{Labels, SecretKeySelector, Pod, PodVolume}
use talisman.K8sutils.Instance.{Instance, px_storage_provisioner_name}

-- The error of a client that says that a claim has no storage class, told by its text.
unfoldable pub lacks_storage_class : Error → Bool
unfolding contains
lacks_storage_class (api _ text) = contains text "does not have a storage class"
lacks_storage_class _ = false

module _ {W : Type 0} (k : Instance W) where
  -- What the loop of `isPodUsingPxVolume` finds out of a claim.
  unfoldable pub is_claim_using_px : String → String → Action W Bool
  unfolding lacks_storage_class
  is_claim_using_px claim_name namespace = do
    pvc ← k.k8s_ops.get_persistent_volume_claim claim_name namespace
    pv ← k.k8s_ops.get_persistent_volume pvc.volume_name
    if pv.is_portworx_volume
        then pure true
        else catch
            (do
              sc_name ← k.k8s_ops.get_storage_provisioner_for_pvc pvc
              pure (sc_name == px_storage_provisioner_name))
            λ e. if lacks_storage_class e then pure false else raise e

  abbrev pub is_source_using_px : Option String → String → Action W Bool
  is_source_using_px none namespace = pure false
  is_source_using_px (some claim_name) namespace = is_claim_using_px claim_name namespace

  -- The loop over the volumes of a pod.
  unfoldable pub is_any_volume_using_px : String → List PodVolume → Action W Bool
  unfolding is_claim_using_px
  is_any_volume_using_px namespace [] = pure false
  is_any_volume_using_px namespace (vol ∷ rest) =
      let more = is_any_volume_using_px namespace rest in
      if vol.is_portworx_volume
      then pure true
      else do found ← is_source_using_px vol.claim_name namespace; if found then pure true else more

  -- `isPodUsingPxVolume`
  unfoldable pub is_pod_using_px_volume : Pod → Action W Bool
  unfolding is_any_volume_using_px
  is_pod_using_px_volume pod = is_any_volume_using_px pod.namespace pod.volumes

  -- `getPodsUsingPX`
  unfoldable pub get_pods_using_px : Action W (List Pod)
  unfolding is_pod_using_px_volume
  get_pods_using_px = do
    pods ← k.k8s_ops.get_pods ""
    gather pods
        λ pod. do using_px ← is_pod_using_px_volume pod; pure (if using_px then pod ∷ [] else [])

  -- The pods of a list that no controller manages.
  unfoldable pub unmanaged_pods : List Pod → W → List Pod × W
  unmanaged_pods [] w = ([], w)
  unmanaged_pods (p ∷ pods) w =
      let (managed, w') = k.k8s_ops.is_pod_being_managed p w in
      let (rest, w'') = unmanaged_pods pods w' in (if managed then rest else p ∷ rest, w'')

  abbrev is_any : List Pod → Bool
  is_any [] = false
  is_any (_ ∷ _) = true

  -- `IsAnyPXAppPodUnmanaged`
  unfoldable pub is_any_px_app_pod_unmanaged : Action W Bool
  unfolding get_pods_using_px unmanaged_pods
  is_any_px_app_pod_unmanaged = do
    pods ← catch get_pods_using_px λ e.
        raise (wrapped "failed to get pods using %s. Err: %v" (px_storage_provisioner_name ∷ []) e)
    λ w. let (unmanaged, w') = unmanaged_pods pods w in pure (is_any unmanaged) w'

  abbrev or_empty : Option String → String
  or_empty none = ""
  or_empty (some s) = s

  -- `GetSecret`; a selector that is nil is `none`, and the bytes that are nil are the empty text.
  unfoldable pub get_secret : Option SecretKeySelector → String → Action W String
  get_secret none namespace = pure ""
  get_secret (some sel) namespace = do
    data_of ← k.k8s_ops.get_secret sel.name namespace
    pure (or_empty (lookup sel.key data_of))
