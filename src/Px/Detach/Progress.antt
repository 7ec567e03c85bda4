-- ===== src/Px/Detach/Progress.antt =====
-- pkg/cluster/px/px.go: the end of the wait for the volumes.
use talisman.Common.{
  ℕ, suc, String, ◌≡◌, refl, true, false, List, [], ◌∷◌, Bool-cases, inl, inr, arith,
}
use talisman.Go.Results.{Error, errorf, ok, err}
use talisman.Go.Retry.{again, done, Retrier}
use talisman.Go.Retry.Rounds.{EndsWithin, now, later, HasRounds}
use talisman.Openstorage.{DriverVolume, VolumeDriver}
use talisman.K8sutils.Instance.{default_retry_interval}
use talisman.Px.Names.{shared_vol_detach_timeout}
use talisman.Px.Ops.{PxClusterOps}
use talisman.Px.Detach.{
  check_detached, detach_task, volumes_to_inspect, wait_till_px_shared_volumes_detached,
}
use talisman.Px.Detach.Detached.{is_any_attached}

module _ {W : Type 0} (driver : VolumeDriver W) (names : List String) where
  -- One of the next reports, so many at most, has no volume that is attached. Reports before it may
  -- fail.
  pub data DetachesWithin : ℕ → W → W → Type 0 where
    detached :
        {n : ℕ} {w w' : W} {vols : List DriverVolume}
        → driver.inspect names w ≡ (ok vols, w')
        → is_any_attached vols ≡ false
        → DetachesWithin (suc n) w w'
    attached :
        {n : ℕ} {w w' w'' : W} {vols : List DriverVolume}
        → driver.inspect names w ≡ (ok vols, w')
        → is_any_attached vols ≡ true
        → DetachesWithin n w' w''
        → DetachesWithin (suc n) w w''
    failed :
        {n : ℕ} {w w' w'' : W} {e : Error}
        → driver.inspect names w ≡ (err e, w')
        → DetachesWithin n w' w''
        → DetachesWithin (suc n) w w''

check_detached-done :
    (vols : List DriverVolume) → is_any_attached vols ≡ false → check_detached vols ≡ done
unfolding check_detached
check_detached-done [] h = refl
check_detached-done (v ∷ vols) h = ground (arith, h, check_detached-done vols)

check_detached-again :
    (vols : List DriverVolume)
    → is_any_attached vols ≡ true
    → (e : Error) × (check_detached vols ≡ again e)
unfolding check_detached
check_detached-again [] h = cc
check_detached-again (v ∷ vols) h = elim (Bool-cases v.is_attached) [
  | inl held ↦ (errorf "volume: %s is still attached" (v.name ∷ []), rw held)
  | inr free ↦ rw free (check_detached-again vols (ground (arith, h, free)))
]

module _ {W : Type 0} (ops : PxClusterOps W) (driver : VolumeDriver W) where
  detach_task-EndsWithin :
      (names : List String) {n : ℕ} {w w' : W}
      → DetachesWithin driver names n w w'
      → EndsWithin (detach_task ops driver names) n w w'
  unfolding detach_task
  detach_task-EndsWithin names (detached {vols = vols} e free) =
      now (rw (e, check_detached-done vols free))
  detach_task-EndsWithin names (attached {vols = vols} e held more) =
      later {e = (check_detached-again vols held).0} (rw (e, (check_detached-again vols held).1))
        (detach_task-EndsWithin names more)
  detach_task-EndsWithin names (failed {e = x} e more) =
      later {e = x} (rw e) (detach_task-EndsWithin names more)

  -- If the volumes to inspect can be listed, and one of the next n reports of the driver has none of
  -- them attached, then the wait succeeds right after it, where its deadline leaves time for n rounds.
  -- Reports that fail do not end the wait.
  pub wait_till_px_shared_volumes_detached-succeeds :
      (R : Retrier) (n : ℕ) (names : List String) (w w₁ w₂ : W)
      → HasRounds R shared_vol_detach_timeout default_retry_interval n
      → volumes_to_inspect ops w ≡ (ok names, w₁)
      → DetachesWithin driver names n w₁ w₂
      → wait_till_px_shared_volumes_detached ops R driver w ≡ (ok tt, w₂)
  unfolding wait_till_px_shared_volumes_detached
  wait_till_px_shared_volumes_detached-succeeds R n names w w₁ w₂ has_rounds listed detaches =
      rw listed
        (has_rounds W (detach_task ops driver names) w₁ w₂ (detach_task-EndsWithin names detaches))
