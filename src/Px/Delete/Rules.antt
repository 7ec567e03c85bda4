-- ===== src/Px/Delete/Rules.antt =====
-- Rules for programs that delete: what is gone after success, and what may be removed at all.
use talisman.Common.{
  ◌≡◌, refl, ◌∙◌, inl, inr, Bool, true, false, ◌||◌, List, [], ◌∷◌, ◌++◌, map, arith, Bool-cases,
  if◌then◌else◌,
}
use talisman.Go.Results.{
  Result, ok, err, panic, is_not_found, Action, continue_with, ◌>>◌, handle, pure, raise,
  ignore_not_found, for_each,
}
use talisman.Kube.Presence.{
  Object, same_object, contains_object, contains_object-append, OnlyRemoves, IsGone, Removed,
  Removes,
}

module _ {W : Type 0} (has : W → Object → Bool) where
  -- On every path only what is in reach is removed; after success all that should be gone is.
  abbrev pub Deleted : (Object → Bool) → (Object → Bool) → W → Result (Unit {0}) × W → Type 0
  Deleted gone reach w (ok _, w') = IsGone has gone w' × OnlyRemoves has reach w w'
  Deleted gone reach w (err _, w') = OnlyRemoves has reach w w'
  Deleted gone reach w (panic _, w') = OnlyRemoves has reach w w'

  pub record Deletes (gone reach : Object → Bool) (m : Action W (Unit {0})) : Type 0 where
    pub runs : (w : W) → Deleted gone reach w (m w)

  OnlyRemoves-trans :
      (r r' : Object → Bool) (w w' w'' : W)
      → OnlyRemoves has r w w'
      → OnlyRemoves has r' w' w''
      → OnlyRemoves has (λ o. r o || r' o) w w''
  OnlyRemoves-trans r r' w w' w'' (frame, mono) (frame', mono') = (
    λ o out. frame' o (ground (arith, out)) ∙ frame o (ground (arith, out)),
    λ o absent. mono' o (mono o absent),
  )

  -- A deletion whose error for a missing object is let pass.
  pub ignore_not_found-Deletes :
      (x : Object) (reach : Object → Bool) (m : Action W (Unit {0}))
      → Removes has x reach m
      → Deletes (same_object x) reach (ignore_not_found m)
  ignore_not_found-Deletes x reach m law = record { runs = λ w. go w (m w).0 (m w).1 (law w) }
    where
      go :
          (w : W) (r : Result (Unit {0})) (w' : W)
          → Removed has x reach w (r, w')
          → Deleted
              (same_object x)
              reach
              w
              (handle (λ e. if is_not_found e then pure tt else raise e) r w')
      go w (ok _) w' h = h
      go w (err e) w' (missing, h) = elim (Bool-cases (is_not_found e)) [
        | inl yes_missing ↦ rw yes_missing (missing yes_missing, h)
        | inr other ↦ rw other h
      ]
      go w (panic _) w' h = h

  -- A deletion every error of which is returned.
  pub delete-Deletes :
      (x : Object) (reach : Object → Bool) (m : Action W (Unit {0}))
      → Removes has x reach m
      → Deletes (same_object x) reach m
  delete-Deletes x reach m law = record { runs = λ w. go w (m w).0 (m w).1 (law w) }
    where
      go :
          (w : W) (r : Result (Unit {0})) (w' : W)
          → Removed has x reach w (r, w')
          → Deleted (same_object x) reach w (r, w')
      go w (ok _) w' h = h
      go w (err e) w' (_, h) = h
      go w (panic _) w' h = h

  then_Deleted :
      (g g' r r' : Object → Bool) (w w' : W) (o : Result (Unit {0}) × W)
      → IsGone has g w'
      → OnlyRemoves has r w w'
      → Deleted g' r' w' o
      → Deleted (λ x. g x || g' x) (λ x. r x || r' x) w o
  then_Deleted g g' r r' w w' (ok _, w'') gone only (gone', only') = (
    λ x h. elim (Bool-cases (g x)) [
      | inl first ↦ only'.1 x (gone x first)
      | inr second ↦ gone' x (ground (arith, h, second))
    ],
    OnlyRemoves-trans r r' w w' w'' only only',
  )
  then_Deleted g g' r r' w w' (err _, w'') gone only only' =
      OnlyRemoves-trans r r' w w' w'' only only'
  then_Deleted g g' r r' w w' (panic _, w'') gone only only' =
      OnlyRemoves-trans r r' w w' w'' only only'

  -- One program after another.
  pub Deletes-then :
      (g g' r r' : Object → Bool) (m k : Action W (Unit {0}))
      → Deletes g r m
      → Deletes g' r' k
      → Deletes (λ x. g x || g' x) (λ x. r x || r' x) (m >> k)
  Deletes-then g g' r r' m k first second = record {
    runs = λ w. go w (m w).0 (m w).1 (first.runs w);
  }
    where
      wider : (w w' : W) → OnlyRemoves has r w w' → OnlyRemoves has (λ x. r x || r' x) w w'
      wider w w' (frame, mono) = (λ x out. frame x (ground (arith, out)), mono)

      go :
          (w : W) (res : Result (Unit {0})) (w' : W)
          → Deleted g r w (res, w')
          → Deleted (λ x. g x || g' x) (λ x. r x || r' x) w (continue_with (λ _. k) res w')
      go w (ok _) w' (gone, only) = then_Deleted g g' r r' w w' (k w') gone only (second.runs w')
      go w (err _) w' only = wider w w' only
      go w (panic _) w' only = wider w w' only

  -- Less may be claimed to be gone, and more to be in reach.
  pub Deletes-weaken :
      (g g' r r' : Object → Bool) (m : Action W (Unit {0}))
      → ((x : Object) → g' x ≡ true → g x ≡ true)
      → ((x : Object) → r' x ≡ false → r x ≡ false)
      → Deletes g r m
      → Deletes g' r' m
  Deletes-weaken g g' r r' m less more h = record { runs = λ w. go w (m w) (h.runs w) }
    where
      wider : (w w' : W) → OnlyRemoves has r w w' → OnlyRemoves has r' w w'
      wider w w' (frame, mono) = (λ x out. frame x (more x out), mono)

      go : (w : W) (o : Result (Unit {0}) × W) → Deleted g r w o → Deleted g' r' w o
      go w (ok _, w') (gone, only) = (λ x in_g. gone x (less x in_g), wider w w' only)
      go w (err _, w') only = wider w w' only
      go w (panic _, w') only = wider w w' only

  -- All objects of a list, and no others.
  pub record DeletesAll (os : List Object) (m : Action W (Unit {0})) : Type 0 where
    pub deletes : Deletes (contains_object os) (contains_object os) m

  pub DeletesAll-one :
      (x : Object) (m : Action W (Unit {0}))
      → Removes has x (same_object x) m
      → DeletesAll (x ∷ []) (ignore_not_found m)
  DeletesAll-one x m law = record {
    deletes =
        Deletes-weaken (same_object x) _ (same_object x) _ _ (λ y h. ground (arith, h))
          (λ y h. ground (arith, h)) (ignore_not_found-Deletes x (same_object x) m law);
  }

  pub DeletesAll-then :
      (os ps : List Object) (m k : Action W (Unit {0}))
      → DeletesAll os m
      → DeletesAll ps k
      → DeletesAll (os ++ ps) (m >> k)
  DeletesAll-then os ps m k first second = record {
    deletes =
        Deletes-weaken _ _ _ _ _ (λ y h. ground (arith, h, contains_object-append os ps y))
          (λ y h. ground (arith, h, contains_object-append os ps y))
          (Deletes-then (contains_object os) (contains_object ps) (contains_object os)
            (contains_object ps) m k first.deletes second.deletes);
  }

  pub DeletesAll-one_strict :
      (x : Object) (m : Action W (Unit {0}))
      → Removes has x (same_object x) m
      → DeletesAll (x ∷ []) m
  DeletesAll-one_strict x m law = record {
    deletes =
        Deletes-weaken (same_object x) _ (same_object x) _ _ (λ y h. ground (arith, h))
          (λ y h. ground (arith, h)) (delete-Deletes x (same_object x) m law);
  }

  -- Nothing to do.
  pub no_objects-DeletesAll : DeletesAll [] (pure tt)
  no_objects-DeletesAll = record {
    deletes = record { runs = λ w. (λ o h. cc, (λ o h. refl, λ o h. h)) };
  }

  -- A loop that deletes one object a round.
  module _ {A : Type 0} (x : A → Object) (f : A → Action W (Unit {0}))
      (one : (a : A) → DeletesAll (x a ∷ []) (f a)) where
    pub for_each-DeletesAll-map : (xs : List A) → DeletesAll (map x xs) (for_each xs f)
    unfolding for_each
    for_each-DeletesAll-map [] = no_objects-DeletesAll
    for_each-DeletesAll-map (a ∷ rest) =
        DeletesAll-then (x a ∷ []) (map x rest) (f a) (for_each rest f) (one a)
          (for_each-DeletesAll-map rest)
