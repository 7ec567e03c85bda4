-- ===== src/Px/Upgrade/Quiet.antt =====
-- Programs that leave what is seen of the cluster as it is, however they end: its applications, or
-- all of it.
use talisman.Common.{ℕ, refl, ◌∙◌, Bool, true, false, List, [], ◌∷◌, ◌++◌, if◌then◌else◌}
use talisman.Go.Results.{
  Error, Result, ok, err, panic, Action, continue_with, ◌>>=◌, handle, catch, for_each, gather,
}
use talisman.Go.Retry.{
  Attempt, done, again, give_up, crashed, Task, call, after_call, Retrier, IsRetry, Keeps,
  Attempts-inv,
}
use talisman.K8sutils.Scaling.Store.{Same}

module _ {W K V : Type 0} (view : W → K → V) where
  pub record Quiet {A : Type 0} (m : Action W A) : Type 0 where
    pub quiet : (w : W) → Same view w (m w).1

  pub pure-Quiet : {A : Type 0} (r : Result A) → Quiet {A = A} λ w. (r, w)
  pure-Quiet r = record { quiet = λ w key. refl }

  pub then-Quiet :
      {A B : Type 0} (m : Action W A) (f : A → Action W B)
      → Quiet m
      → ((a : A) → Quiet (f a))
      → Quiet (m >>= f)
  then-Quiet {A} {B} m f first rest = record { quiet = λ w. go w (m w).0 (m w).1 (first.quiet w) }
    where
      go : (w : W) (r : Result A) (w' : W) → Same view w w' → Same view w (continue_with f r w').1
      go w (ok a) w' same = λ key. (rest a).quiet w' key ∙ same key
      go w (err _) w' same = same
      go w (panic _) w' same = same

  pub catch-Quiet :
      {A : Type 0} (m : Action W A) (h : Error → Action W A)
      → Quiet m
      → ((e : Error) → Quiet (h e))
      → Quiet (catch m h)
  catch-Quiet {A} m h first rest = record { quiet = λ w. go w (m w).0 (m w).1 (first.quiet w) }
    where
      go : (w : W) (r : Result A) (w' : W) → Same view w w' → Same view w (handle h r w').1
      go w (ok _) w' same = same
      go w (err e) w' same = λ key. (rest e).quiet w' key ∙ same key
      go w (panic _) w' same = same

  pub if-Quiet :
      {A : Type 0} (b : Bool) (m k : Action W A) → Quiet m → Quiet k → Quiet (if b then m else k)
  if-Quiet true m k hm hk = hm
  if-Quiet false m k hm hk = hk

  pub for_each-Quiet :
      {A : Type 0} (xs : List A) (f : A → Action W (Unit {0}))
      → ((a : A) → Quiet (f a))
      → Quiet (for_each xs f)
  unfolding for_each
  for_each-Quiet [] f h = pure-Quiet (ok tt)
  for_each-Quiet (x ∷ xs) f h =
      then-Quiet (f x) (λ _. for_each xs f) (h x) λ _. for_each-Quiet xs f h

  pub gather-Quiet :
      {A B : Type 0} (xs : List A) (f : A → Action W (List B))
      → ((a : A) → Quiet (f a))
      → Quiet (gather xs f)
  unfolding gather
  gather-Quiet [] f h = pure-Quiet (ok [])
  gather-Quiet (x ∷ xs) f h =
      then-Quiet (f x) _ (h x)
        λ ys. then-Quiet (gather xs f) _ (gather-Quiet xs f h) λ zs. pure-Quiet (ok (ys ++ zs))

  -- A task, of which `world` is the state of the cluster.
  pub record QuietTask {S : Type 0} (world : S → W) (t : Task S) : Type 0 where
    pub quiet : (s : S) → Same view (world s) (world (t s).1)

  pub call-QuietTask :
      {A : Type 0} (m : Action W A) (h : Error → Attempt) (f : A → Task W)
      → Quiet m
      → ((a : A) → QuietTask (λ w. w) (f a))
      → QuietTask (λ w. w) (call m h f)
  call-QuietTask {A} m h f first rest = record { quiet = λ w. go w (m w).0 (m w).1 (first.quiet w) }
    where
      go : (w : W) (r : Result A) (w' : W) → Same view w w' → Same view w (after_call h f r w').1
      go w (ok a) w' same = λ key. (rest a).quiet w' key ∙ same key
      go w (err _) w' same = same
      go w (panic _) w' same = same

  pub retry-Same :
      (R : Retrier)
      → IsRetry R
      → {S : Type 0} (world : S → W) (timeout interval : ℕ) (t : Task S) → QuietTask world t
      → (s : S) → Same view (world s) (world (R.retry S timeout interval t s).1)
  retry-Same R is_retry {S} world timeout interval t q s =
      Attempts-inv (λ s'. Same view (world s) (world s')) (λ _ s'. Same view (world s) (world s')) t
        (λ s' h. keeps s' h (t s').0 (t s').1 (q.quiet s')) (λ s' h. h)
        (is_retry S timeout interval t s) λ key. refl
    where
      keeps :
          (s' : S)
          → Same view (world s) (world s')
          → (a : Attempt) (s'' : S) → Same view (world s') (world s'')
          → Keeps
              (λ x. Same view (world s) (world x))
              (λ _ x. Same view (world s) (world x))
              (a, s'')
      keeps s' h done s'' same = λ key. same key ∙ h key
      keeps s' h (again _) s'' same = λ key. same key ∙ h key
      keeps s' h (give_up _) s'' same = λ key. same key ∙ h key
      keeps s' h (crashed _) s'' same = λ key. same key ∙ h key

  pub retry-Quiet :
      (R : Retrier)
      → IsRetry R
      → (timeout interval : ℕ) (t : Task W) → QuietTask (λ w. w) t
      → Quiet (R.retry W timeout interval t)
  retry-Quiet R is_retry timeout interval t q = record {
    quiet = retry-Same R is_retry (λ w. w) timeout interval t q;
  }
