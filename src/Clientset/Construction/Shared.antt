-- ===== src/Clientset/Construction/Shared.antt =====
-- The configurations that the clients of a clientset are made with.
use mathlib.Core.Path.{subst}
use talisman.Common.{
  ◌==◌, ◌≡◌, refl, sym, inl, inr, Bool, true, false, Bool-cases, Option, none, some, if◌then◌else◌,
}
use talisman.Go.Results.{
  of_error, Result, ok, err, panic, Action, pure, crash, continue_with, handle, ◌>>=◌, catch,
}
use talisman.Clientset.Construction.{
  Transport, GroupVersion, scheme_group_version_v1beta1, scheme_group_version_v1beta2, Config,
  Clientset, Constructors, client_for_config, client_for_config_or_die, with_limiter,
  clients_for_config, new_for_config, new_for_config_or_die,
}

-- A call that returns a value has returned one with the property.
abbrev pub WhenOk : {S A : Type 0} → (A → Type 0) → Result A × S → Type 0
WhenOk P (ok a, s) = P a
WhenOk P (err e, s) = Unit
WhenOk P (panic p, s) = Unit

-- The call has returned the value, in some state.
pub record MadeBy {S A : Type 0} (m : Action S A) (a : A) : Type 0 where
  pub before : S
  pub after : S
  pub returned : m before ≡ (ok a, after)

when_then :
    {S A B : Type 0} (P : A → Type 0) (Q : B → Type 0) (m : Action S A) (f : A → Action S B)
    (keeps : (a : A) (s : S) → P a → WhenOk Q (f a s)) (s : S)
    → WhenOk P (m s)
    → WhenOk Q ((m >>= f) s)
when_then {S} {A} P Q m f keeps s h = by_result (m s) h
  where
    by_result : (r : Result A × S) → WhenOk P r → WhenOk Q (continue_with f r.0 r.1)
    by_result (ok a, s') h = keeps a s' h
    by_result (err e, s') h = tt
    by_result (panic p, s') h = tt

made : {S A : Type 0} (m : Action S A) (s : S) → WhenOk (MadeBy m) (m s)
made {S} {A} m s = by_result (m s) refl
  where
    by_result : (r : Result A × S) → m s ≡ r → WhenOk (MadeBy m) r
    by_result (ok a, s') e = record { before = s; after = s'; returned = e }
    by_result (err x, s') e = tt
    by_result (panic p, s') e = tt

when_mono :
    {S A : Type 0} (P Q : A → Type 0) (r : Result A × S)
    → ((a : A) → P a → Q a)
    → WhenOk P r
    → WhenOk Q r
when_mono P Q (ok a, s) keeps h = keeps a h
when_mono P Q (err e, s) keeps h = tt
when_mono P Q (panic p, s) keeps h = tt

when_or_die :
    {S A : Type 0} (P : A → Type 0) (m : Action S A) (s : S)
    → WhenOk P (m s)
    → WhenOk P (catch m (λ e. crash (of_error e)) s)
when_or_die {S} {A} P m s h = by_result (m s) h
  where
    by_result :
        (r : Result A × S) → WhenOk P r → WhenOk P (handle (λ e. crash (of_error e)) r.0 r.1)
    by_result (ok a, s') h = h
    by_result (err e, s') h = tt
    by_result (panic p, s') h = tt

module _ (T : Transport) (C : Constructors T) where
  -- The configuration of a client of a version.
  abbrev pub config_for : Config T → Option T.RateLimiter → GroupVersion → Config T
  config_for c limiter gv = record {
    rate_limiter = limiter;
    qps = c.qps;
    burst = c.burst;
    group_version = some gv;
    api_path = "/apis";
    negotiated_serializer = some T.codecs;
    user_agent = if c.user_agent == "" then T.default_kubernetes_user_agent else c.user_agent;
    others = c.others;
  }

  abbrev pub limited : Config T → Option T.RateLimiter → Config T
  limited c l = record c { rate_limiter = l }

  -- Both versions have a client with the same rate limiter, and each has its own version.
  pub record WithLimiter (discover : Config T → Action T.World T.DiscoveryClient) (c : Config T)
      (limiter : Option T.RateLimiter) (cs : Clientset T) : Type 0 where
    pub v1beta1 :
        MadeBy
          (C.rest_client_for (config_for c limiter scheme_group_version_v1beta1))
          cs.portworx_v1beta1
    pub v1beta2 :
        MadeBy
          (C.rest_client_for (config_for c limiter scheme_group_version_v1beta2))
          cs.portworx_v1beta2
    pub discovery : MadeBy (discover (limited c limiter)) cs.discovery_client

  -- The token bucket that is made in a state, with the rate and the burst of a configuration.
  abbrev pub new_bucket : Config T → T.World → T.RateLimiter
  new_bucket c w = (T.new_token_bucket_rate_limiter c.qps c.burst w).0

  -- The limiter that the clients share: the caller's, or a new one if the caller has a rate only.
  abbrev pub IsShared : Option T.RateLimiter → Bool → T.RateLimiter → Option T.RateLimiter → Type 0
  IsShared (some given) rated fresh limiter = limiter ≡ some given
  IsShared none true fresh limiter = limiter ≡ some fresh
  IsShared none false fresh limiter = limiter ≡ none

  abbrev Limited : Config T → T.World → Config T → Type 0
  Limited c w config =
      (l : Option T.RateLimiter) × (config ≡ limited c l)
      × IsShared c.rate_limiter (T.is_positive c.qps) (new_bucket c w) l

  with_limiter-Limited :
      (c : Config T) (given : Option T.RateLimiter) (w : T.World)
      → WhenOk (Limited (limited c given) w) (with_limiter T C (limited c given) w)
  with_limiter-Limited c (some given) w = (some given, refl, refl)
  with_limiter-Limited c none w = elim (Bool-cases (T.is_positive c.qps)) [
    | inl rated ↦ rw rated (some _, refl, rw rated refl)
    | inr unrated ↦ rw unrated (none, refl, rw unrated refl)
  ]

  built-WithLimiter :
      (discover : Config T → Action T.World T.DiscoveryClient) (c : Config T)
      (l : Option T.RateLimiter) (client : GroupVersion → Action T.World T.RestInterface)
      → ((gv : GroupVersion) (w : T.World)
          → WhenOk (MadeBy (C.rest_client_for (config_for c l gv))) (client gv w))
      → (w : T.World)
      → WhenOk (WithLimiter discover c l) (
          (client scheme_group_version_v1beta1 >>= λ v1.
          client scheme_group_version_v1beta2 >>= λ v2. discover (limited c l) >>= λ d.
          pure (record { discovery_client = d; portworx_v1beta1 = v1; portworx_v1beta2 = v2 }))
            w)
  built-WithLimiter discover c l client makes w =
      let P₁ = MadeBy (C.rest_client_for (config_for c l scheme_group_version_v1beta1)) in
      let P₂ = MadeBy (C.rest_client_for (config_for c l scheme_group_version_v1beta2)) in
      let Q = WithLimiter discover c l in
      when_then P₁ Q (client scheme_group_version_v1beta1) _
        (λ v1 w₁ made_v1.
          when_then P₂ Q (client scheme_group_version_v1beta2) _
            (λ v2 w₂ made_v2.
              when_then (MadeBy (discover (limited c l))) Q (discover (limited c l)) _
                (λ d w₃ made_d. record { v1beta1 = made_v1; v1beta2 = made_v2; discovery = made_d })
                w₂ (made (discover (limited c l)) w₂))
            w₁ (makes scheme_group_version_v1beta2 w₁))
        w (makes scheme_group_version_v1beta1 w)

  -- Some limiter is shared.
  abbrev pub Shares : Config T → T.World → Clientset T → Type 0
  Shares c w cs =
      (l : Option T.RateLimiter) × IsShared c.rate_limiter (T.is_positive c.qps) (new_bucket c w) l
      × WithLimiter C.new_discovery_client_for_config c l cs

  -- Where `NewForConfig` returns a clientset, then its clients of both versions and its discovery client were
  -- made with one rate limiter: the caller's if the configuration has one, else a token bucket made
  -- for this call, with the configuration's rate and burst, if the rate is positive, else none. If `NewForConfigOrDie` returns one, they were made with the limiter of the
  -- configuration itself, so that none is shared where it has none. In both, the client of a version is
  -- made for its group version under "/apis", with the caller's user agent or else the default.
  pub new_for_config-WithLimiter :
      (c : Config T) (w : T.World)
      → WhenOk (Shares c w) (new_for_config T C c w)
        × WhenOk
            (WithLimiter C.new_discovery_client_for_config_or_die c c.rate_limiter)
            (new_for_config_or_die T C c w)
  unfolding new_for_config new_for_config_or_die
  new_for_config-WithLimiter c w =
      let disc = C.new_discovery_client_for_config in
      let or_die = C.new_discovery_client_for_config_or_die in
      let makes =
        λ (config : Config T) (l : Option T.RateLimiter) (gv : GroupVersion) (v : T.World).
          made (C.rest_client_for (config_for config l gv)) v in
      (
        when_then (Limited c w) (Shares c w) (with_limiter T C c) (clients_for_config T C)
            (λ config w' (l, same, shared).
              subst (λ x. WhenOk (Shares c w) (clients_for_config T C x w')) (sym same)
                (when_mono (WithLimiter disc c l) (Shares c w)
                  (clients_for_config T C (limited c l) w') (λ cs built. (l, shared, built))
                  (built-WithLimiter disc c l (λ gv. client_for_config T C gv (limited c l))
                    (makes c l) w')))
            w (with_limiter-Limited c c.rate_limiter w),
        built-WithLimiter or_die c c.rate_limiter (λ gv. client_for_config_or_die T C gv c)
            (λ gv v. when_or_die _ (client_for_config T C gv c) v (makes c c.rate_limiter gv v)) w,
      )
