-- ===== src/Px/Detach/Detached.antt =====
-- pkg/cluster/px/px.go: the success of the wait for the volumes.
use talisman.Common.{
  ℕ, String, ◌≡◌, refl, inl, inr, Bool, false, ◌||◌, List, [], ◌∷◌, arith, Bool-cases,
}
use talisman.Go.Results.{Result, ok, err, panic}
use talisman.Go.Retry.{again, Retrier, IsRetry, Keeps, Attempts-inv, after_call}
use talisman.Openstorage.{DriverVolume, VolumeDriver}
use talisman.Px.Ops.{PxClusterOps}
use talisman.Px.Detach.{check_detached, detach_task}

abbrev pub is_any_attached : List DriverVolume → Bool
is_any_attached [] = false
is_any_attached (v ∷ vols) = v.is_attached || is_any_attached vols

module _ {W : Type 0} (ops : PxClusterOps W) (driver : VolumeDriver W) (names : List String) where
  -- The last report of the driver names no volume that is attached.
  abbrev pub Detached : Result (Unit {0}) → W → Type 0
  Detached (ok _) w =
      (before : W) × (vols : List DriverVolume) × (driver.inspect names before ≡ (ok vols, w))
      × (is_any_attached vols ≡ false)
  Detached (err _) w = Unit
  Detached (panic _) w = Unit

  check-Keeps :
      (vols : List DriverVolume) (w w' : W)
      → driver.inspect names w ≡ (ok vols, w')
      → (rest : List DriverVolume) → (is_any_attached rest ≡ false → is_any_attached vols ≡ false)
      → Keeps (λ _. Unit) Detached (check_detached rest, w')
  unfolding check_detached
  check-Keeps vols w w' e [] h = (w, vols, e, h refl)
  check-Keeps vols w w' e (v ∷ rest) h = elim (Bool-cases v.is_attached) [
    | inl attached ↦ rw attached tt
    | inr free ↦
        rw free (check-Keeps vols w w' e rest λ none_left. h (ground (arith, free, none_left)))
  ]

  detach_task-Keeps : (w : W) → Keeps (λ _. Unit) Detached (detach_task ops driver names w)
  unfolding detach_task
  detach_task-Keeps w = go (driver.inspect names w).0 (driver.inspect names w).1 refl
    where
      go :
          (r : Result (List DriverVolume)) (w' : W)
          → driver.inspect names w ≡ (r, w')
          → Keeps
              (λ _. Unit)
              Detached
              (after_call again (λ found s. (check_detached found, s)) r w')
      go (ok vols) w' e = check-Keeps vols w w' e vols λ h. h
      go (err _) w' e = tt
      go (panic _) w' e = tt

  -- If the wait for the shared volumes succeeds, then the last report of the driver has no volume
  -- that is still attached.
  pub detach_task-Detached :
      (R : Retrier)
      → IsRetry R
      → (timeout interval : ℕ) (w : W)
      → let (r, w') = R.retry W timeout interval (detach_task ops driver names) w in Detached r w'
  detach_task-Detached R is_retry timeout interval w =
      Attempts-inv (λ _. Unit) Detached (detach_task ops driver names)
        (λ w' _. detach_task-Keeps w') (λ _ _. tt)
        (is_retry W timeout interval (detach_task ops driver names) w) tt
