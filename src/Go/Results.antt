-- ===== src/Go/Results.antt =====
-- A Go call: it returns a value, returns an error, or panics, and it changes the world.
use talisman.Common.{String, List, [], ◌∷◌, ◌++◌, Bool, true, false, if◌then◌else◌}

-- What an error of the Kubernetes API says of its cause.
pub data Reason : Type 0 where
  is_missing is_present other_reason : Reason

pub data Error : Type 0 where
  -- an error that a client returned, with its text
  api : Reason → String → Error
  -- the two error values of the package
  no_px_daemonset using_internal_etcd : Error
  -- the deadline of a retry or poll
  timed_out : Error
  -- `fmt.Errorf` with the format and the texts that it is given
  errorf : String → List String → Error
  -- `fmt.Errorf` with an error as its last argument
  wrapped : String → List String → Error → Error

pub data Panic : Type 0 where
  nil_map nil_pointer index_out_of_range type_assertion : Panic
  -- `panic(err)`
  of_error : Error → Panic
  -- a panic of another goroutine, which ends the process: no deferred function of this one runs
  in_goroutine : Panic → Panic

pub data Result (A : Type 0) : Type 0 where
  ok : A → Result A
  err : Error → Result A
  panic : Panic → Result A

-- `errors.IsNotFound` and `errors.IsAlreadyExists`
abbrev pub is_not_found : Error → Bool
is_not_found (api is_missing _) = true
is_not_found _ = false

abbrev pub is_already_exists : Error → Bool
is_already_exists (api is_present _) = true
is_already_exists _ = false

abbrev pub Action : Type 0 → Type 0 → Type 0
Action S A = S → Result A × S

module _ {S : Type 0} {A : Type 0} where
  abbrev pub pure : A → Action S A
  pure a s = (ok a, s)

  abbrev pub raise : Error → Action S A
  raise e s = (err e, s)

  abbrev pub crash : Panic → Action S A
  crash p s = (panic p, s)

  abbrev pub of_result : Result A → Action S A
  of_result r s = (r, s)

-- The call that follows runs only after success.
abbrev pub continue_with : {S A B : Type 0} → (A → Action S B) → Result A → Action S B
continue_with f (ok a) s = f a s
continue_with f (err e) s = (err e, s)
continue_with f (panic p) s = (panic p, s)

infixl 5 ◌>>=◌ ◌>>◌
abbrev pub ◌>>=◌ : {S A B : Type 0} → Action S A → (A → Action S B) → Action S B
◌>>=◌ m f s = let (r, s') = m s in continue_with f r s'

abbrev pub ◌>>◌ : {S A B : Type 0} → Action S A → Action S B → Action S B
m >> k = m >>= λ _. k

abbrev pub handle : {S A : Type 0} → (Error → Action S A) → Result A → Action S A
handle h (ok a) s = (ok a, s)
handle h (err e) s = h e s
handle h (panic p) s = (panic p, s)

-- `if err != nil { … }` with more than a return in it
abbrev pub catch : {S A : Type 0} → Action S A → (Error → Action S A) → Action S A
catch m h s = let (r, s') = m s in handle h r s'

-- `if err != nil && !errors.IsNotFound(err) { return err }`
abbrev pub ignore_not_found : {S : Type 0} → Action S (Unit {0}) → Action S (Unit {0})
ignore_not_found m = catch m λ e. if is_not_found e then pure tt else raise e

abbrev pub after_defer : {A : Type 0} → Result A → Result (Unit {0}) → Result A
after_defer r (ok _) = r
after_defer r (err _) = r
after_defer r (panic p) = panic p

-- The call has ended with the process.
abbrev pub is_over : {A : Type 0} → Result A → Bool
is_over (ok _) = false
is_over (err _) = false
is_over (panic (in_goroutine _)) = true
is_over (panic (of_error _)) = false
is_over (panic nil_map) = false
is_over (panic nil_pointer) = false
is_over (panic index_out_of_range) = false
is_over (panic type_assertion) = false

-- `defer`: the cleanup runs however the body ends, unless the process does; its error is dropped, its
-- panic is not.
abbrev pub with_defer : {S A : Type 0} → Action S (Unit {0}) → Action S A → Action S A
with_defer cleanup body s =
    let (r, s') = body s in
    let (c, s'') = cleanup s' in if is_over r then (r, s') else (after_defer r c, s'')

-- The error is only logged.
abbrev pub logged : {S : Type 0} → Action S (Unit {0}) → Action S (Unit {0})
logged m = catch m λ _. pure tt

-- `for _, x := range xs { … }` whose body returns on an error
unfoldable pub for_each : {S A : Type 0} → List A → (A → Action S (Unit {0})) → Action S (Unit {0})
for_each [] f = pure tt
for_each (x ∷ xs) f = f x >> for_each xs f

-- The same with `append(out, …)` in the body.
unfoldable pub gather : {S A B : Type 0} → List A → (A → Action S (List B)) → Action S (List B)
gather [] f = pure []
gather (x ∷ xs) f = f x >>= λ ys. gather xs f >>= λ zs. pure (ys ++ zs)
