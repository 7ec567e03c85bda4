-- ===== src/Crd/Established.antt =====
-- What the success of `CreateCRD` means.
use talisman.Common.{
  String, ◌≡◌, refl, Bool, true, false, Option, none, some, List, [], ◌∷◌, All, arith,
}
use talisman.Go.Results.{Error, Result, ok, err, panic, continue_with, ◌>>=◌}
use talisman.Go.Retry.{
  Attempt, done, again, give_up, crashed, Retrier, Runs, same_goroutine, KeepsBy, Attempts-inv,
  after_call,
}
use talisman.Crd.{
  CustomResource, Condition, ConditionType, ConditionStatus, established, names_accepted,
  other_condition, condition_true, condition_false, condition_unknown, CrdContext, crd_name, judge,
  check_conditions, create_one, init_task, wait_for_crd_init, go_on, try_each, last_error,
  create_crd,
}

-- The first condition that decides says that the definition is established.
abbrev pub decides : ConditionType → ConditionStatus → Bool → Bool
decides established condition_true rest = true
decides names_accepted condition_false rest = false
decides _ _ rest = rest

abbrev pub is_established : List Condition → Bool
is_established [] = false
is_established (c ∷ cs) = decides c.condition_type c.status (is_established cs)

judge-done :
    (t : ConditionType) (status : ConditionStatus) (reason : String) (rest : Attempt) (b : Bool)
    → (rest ≡ done → b ≡ true)
    → judge t status reason rest ≡ done
    → decides t status b ≡ true
judge-done established condition_true reason rest b h e = refl
judge-done established condition_false reason rest b h e = h e
judge-done established condition_unknown reason rest b h e = h e
judge-done names_accepted condition_true reason rest b h e = h e
judge-done names_accepted condition_false reason rest b h e = absurd (ground (arith, e))
judge-done names_accepted condition_unknown reason rest b h e = h e
judge-done other_condition status reason rest b h e = h e

check_conditions-done :
    (conditions : List Condition)
    → check_conditions conditions ≡ done
    → is_established conditions ≡ true
unfolding check_conditions
check_conditions-done [] e = absurd (ground (arith, e))
check_conditions-done (c ∷ cs) e =
    judge-done c.condition_type c.status c.reason (check_conditions cs) (is_established cs)
      (check_conditions-done cs) e

module _ {W : Type 0} (context : CrdContext W) where
  -- At some moment the definition was read and was established.
  abbrev pub WasEstablished : CustomResource → Type 0
  WasEstablished resource =
      (before after : W) × (conditions : List Condition) × (context.client.get_conditions
          (crd_name resource) before
        ≡ (ok conditions, after))
      × (is_established conditions ≡ true)

  abbrev WasInit : CustomResource → Result (Unit {0}) → W → Type 0
  WasInit resource (ok _) w = WasEstablished resource
  WasInit resource (err _) w = Unit
  WasInit resource (panic _) w = Unit

  init_task-Keeps :
      (resource : CustomResource) (w : W)
      → KeepsBy (λ _. Unit) (WasInit resource) same_goroutine (init_task context resource w)
  unfolding init_task
  init_task-Keeps resource w = go (context.client.get_conditions (crd_name resource) w).0 _ refl
    where
      verdict :
          (conditions : List Condition) (w' : W)
          → context.client.get_conditions (crd_name resource) w ≡ (ok conditions, w')
          → (a : Attempt) → check_conditions conditions ≡ a
          → KeepsBy (λ _. Unit) (WasInit resource) same_goroutine (a, w')
      verdict conditions w' e done h = (w, w', conditions, e, check_conditions-done conditions h)
      verdict conditions w' e (again _) h = tt
      verdict conditions w' e (give_up _) h = tt
      verdict conditions w' e (crashed _) h = tt

      go :
          (r : Result (List Condition)) (w' : W)
          → context.client.get_conditions (crd_name resource) w ≡ (r, w')
          → KeepsBy
              (λ _. Unit)
              (WasInit resource)
              same_goroutine
              (after_call give_up (λ conditions s. (check_conditions conditions, s)) r w')
      go (ok conditions) w' e = verdict conditions w' e (check_conditions conditions) refl
      go (err _) w' e = tt
      go (panic _) w' e = tt

  abbrev no_error : Option Error → Bool
  no_error none = true
  no_error (some _) = false

  -- After the loop over the waits: no error means that there was none before, and that every
  -- definition was established.
  abbrev AllEstablished : List CustomResource → Option Error → Result (Option Error) → Type 0
  AllEstablished resources last (ok none) = All WasEstablished resources × (no_error last ≡ true)
  AllEstablished resources last (ok (some _)) = Unit
  AllEstablished resources last (err _) = Unit
  AllEstablished resources last (panic _) = Unit

  module _ (poll : Retrier) (polls : Runs same_goroutine poll) where
    wait_for_crd_init-WasInit :
        (resource : CustomResource) (w : W)
        → let (r, w') = wait_for_crd_init context poll resource w in WasInit resource r w'
    unfolding wait_for_crd_init
    wait_for_crd_init-WasInit resource w =
        Attempts-inv (λ _. Unit) (WasInit resource) (init_task context resource)
          (λ w' _. init_task-Keeps resource w') (λ _ _. tt)
          (polls W context.timeout context.interval (init_task context resource) w) tt

    weaken :
        (rest : List CustomResource) (e : Error) (last : Option Error) (resource : CustomResource)
        (r : Result (Option Error))
        → AllEstablished rest (some e) r
        → AllEstablished (resource ∷ rest) last r
    weaken rest e last resource (ok none) (all, h) = absurd (ground (arith, h))
    weaken rest e last resource (ok (some _)) h = tt
    weaken rest e last resource (err _) h = tt
    weaken rest e last resource (panic _) h = tt

    extend :
        (rest : List CustomResource) (last : Option Error) (resource : CustomResource)
        (r : Result (Option Error))
        → WasEstablished resource
        → AllEstablished rest last r
        → AllEstablished (resource ∷ rest) last r
    extend rest last resource (ok none) h (all, n) = ((h, all), n)
    extend rest last resource (ok (some _)) h h' = tt
    extend rest last resource (err _) h h' = tt
    extend rest last resource (panic _) h h' = tt

    try_each-AllEstablished :
        (resources : List CustomResource) (last : Option Error) (w : W)
        → AllEstablished resources last
            (try_each (wait_for_crd_init context poll) resources last w).0
    unfolding try_each
    try_each-AllEstablished [] none w = (tt, refl)
    try_each-AllEstablished [] (some _) w = tt
    try_each-AllEstablished (resource ∷ rest) last w =
        go (try_each-AllEstablished rest) (wait_for_crd_init context poll resource w).0 _
          (wait_for_crd_init-WasInit resource w)
      where
        go :
            ((last : Option Error) (w' : W)
              → AllEstablished rest last (try_each (wait_for_crd_init context poll) rest last w').0)
            → (r : Result (Unit {0})) (w' : W) → WasInit resource r w'
            → AllEstablished
                (resource ∷ rest)
                last
                (go_on (try_each (wait_for_crd_init context poll) rest) last r w').0
        go more (ok _) w' h = extend rest last resource _ h (more last w')
        go more (err e) w' h = weaken rest e last resource _ (more (some e) w')
        go more (panic _) w' h = tt

    abbrev pub Ready : List CustomResource → Result (Unit {0}) × W → Type 0
    Ready resources (ok _, w) = All WasEstablished resources
    Ready resources (err _, w) = Unit
    Ready resources (panic _, w) = Unit

    -- If `create_crd` succeeds, then for every resource there was a moment at which its definition
    -- was read and the first condition that decides said that it is established. The errors of the
    -- other resources do not hide one that failed.
    pub create_crd-Ready :
        (resources : List CustomResource) (w : W)
        → Ready resources (create_crd poll context resources w)
    unfolding create_crd
    create_crd-Ready resources w = created (try_each (create_one context) resources none w)
      where
        waited :
            (last : Option Error) (r : Result (Option Error)) (w' : W)
            → AllEstablished resources last r
            → Ready resources (continue_with last_error r w')
        waited last (ok none) w' h = h.0
        waited last (ok (some _)) w' h = tt
        waited last (err _) w' h = tt
        waited last (panic _) w' h = tt

        created :
            (o : Result (Option Error) × W)
            → Ready resources (
                continue_with
                  (λ last. try_each (wait_for_crd_init context poll) resources last >>= last_error)
                  o.0
                  o.1)
        created (ok last, w') = waited last _ _ (try_each-AllEstablished resources last w')
        created (err _, w') = tt
        created (panic _, w') = tt
