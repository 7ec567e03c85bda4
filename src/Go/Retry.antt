-- ===== src/Go/Retry.antt =====
-- `task.DoRetryWithTimeout` of sched-ops. The library is not modelled: what the code relies on is
-- that a call of it is one of the runs that `Attempts` lists.
pub mod Rounds
use talisman.Common.{ℕ, zero, suc, ◌≡◌, refl}
use mathlib.Core.Path.{subst}
use talisman.Go.Results.{Error, timed_out, Panic, in_goroutine, Result, ok, err, panic, Action}

-- What one round of a task returns: `nil, false, nil`, `nil, true, err` or `nil, false, err`.
pub data Attempt : Type 0 where
  done : Attempt
  again : Error → Attempt
  give_up : Error → Attempt
  crashed : Panic → Attempt

abbrev pub Task : Type 0 → Type 0
Task S = S → Attempt × S

-- A call of a client inside a task, and what follows it.
abbrev pub after_call : {S A : Type 0} → (Error → Attempt) → (A → Task S) → Result A → Task S
after_call h f (ok a) s = f a s
after_call h f (err e) s = (h e, s)
after_call h f (panic p) s = (crashed p, s)

abbrev pub call : {S A : Type 0} → Action S A → (Error → Attempt) → (A → Task S) → Task S
call m h f s = let (r, s') = m s in after_call h f r s'

-- A run of the loop: rounds until one is done, gives up or panics, or the deadline is over. What a
-- panic of the task is for the caller depends on the goroutine that runs it.
pub data Attempts {S : Type 0} (raised : Panic → Panic) (t : Task S)
    : S → Result (Unit {0}) → S → Type 0 where
  success : {s s' : S} → t s ≡ (done, s') → Attempts raised t s (ok tt) s'
  failure : {s s' : S} {e : Error} → t s ≡ (give_up e, s') → Attempts raised t s (err e) s'
  abort : {s s' : S} {p : Panic} → t s ≡ (crashed p, s') → Attempts raised t s (panic (raised p)) s'
  retried :
      {s s' s'' : S} {e : Error} {r : Result (Unit {0})}
      → t s ≡ (again e, s')
      → Attempts raised t s' r s''
      → Attempts raised t s r s''
  expired : {s : S} → Attempts raised t s (err timed_out) s

-- The function, for a state that may hold the variables that a task captures.
pub record Retrier : Type 1 where
  pub retry : (S : Type 0) → ℕ → ℕ → Task S → Action S (Unit {0})

-- The task runs in the goroutine of the caller, as the condition of `wait.Poll` does.
abbrev pub same_goroutine : Panic → Panic
same_goroutine p = p

abbrev pub Runs : (Panic → Panic) → Retrier → Type 1
Runs raised k =
    (S : Type 0) (timeout interval : ℕ) (t : Task S) (s : S)
    → Attempts raised t s (k.retry S timeout interval t s).0 (k.retry S timeout interval t s).1

-- `task.DoRetryWithTimeout` runs the task in a goroutine of its own, without a recover.
abbrev pub IsRetry : Retrier → Type 1
IsRetry = Runs in_goroutine

module _ {S : Type 0} (P : S → Type 0) (Q : Result (Unit {0}) → S → Type 0) where
  -- What a round owes: the loop's promise where it ends, the invariant where it goes on.
  abbrev pub KeepsBy : (Panic → Panic) → Attempt × S → Type 0
  KeepsBy raised (done, s) = Q (ok tt) s
  KeepsBy raised (again _, s) = P s
  KeepsBy raised (give_up e, s) = Q (err e) s
  KeepsBy raised (crashed p, s) = Q (panic (raised p)) s

  abbrev pub Keeps : Attempt × S → Type 0
  Keeps = KeepsBy in_goroutine

  pub Attempts-inv :
      {raised : Panic → Panic} (t : Task S)
      → ((s : S) → P s → KeepsBy raised (t s))
      → ((s : S) → P s → Q (err timed_out) s)
      → {s s' : S} {r : Result (Unit {0})} → Attempts raised t s r s'
      → P s
      → Q r s'
  Attempts-inv {raised} t step late {s} (success e) h = subst (KeepsBy raised) e (step s h)
  Attempts-inv {raised} t step late {s} (failure e) h = subst (KeepsBy raised) e (step s h)
  Attempts-inv {raised} t step late {s} (abort e) h = subst (KeepsBy raised) e (step s h)
  Attempts-inv {raised} t step late {s} (retried e more) h =
      Attempts-inv t step late more (subst (KeepsBy raised) e (step s h))
  Attempts-inv t step late {s} expired h = late s h

-- A retrier that makes at most `n` rounds.
abbrev after_round :
    {S : Type 0} → (Panic → Panic) → Action S (Unit {0}) → Attempt → Action S (Unit {0})
after_round raised rest done s = (ok tt, s)
after_round raised rest (again _) s = rest s
after_round raised rest (give_up e) s = (err e, s)
after_round raised rest (crashed p) s = (panic (raised p), s)

unfoldable pub rounds : {S : Type 0} → (Panic → Panic) → ℕ → Task S → Action S (Unit {0})
rounds raised zero t s = (err timed_out, s)
rounds raised (suc n) t s = let (a, s') = t s in after_round raised (rounds raised n t) a s'

abbrev pub bounded_retrier : ℕ → Retrier
bounded_retrier n = record { retry = λ S timeout interval t. rounds in_goroutine n t }

abbrev pub bounded_poll : ℕ → Retrier
bounded_poll n = record { retry = λ S timeout interval t. rounds same_goroutine n t }

rounds-Attempts :
    {S : Type 0} (raised : Panic → Panic) (n : ℕ) (t : Task S) (s : S)
    → Attempts raised t s (rounds raised n t s).0 (rounds raised n t s).1
unfolding rounds
rounds-Attempts raised zero t s = expired
rounds-Attempts {S} raised (suc n) t s = go (rounds-Attempts raised n t) (t s).0 (t s).1 refl
  where
    more : Action S (Unit {0})
    more = rounds raised n t

    go :
        ((s' : S) → Attempts raised t s' (more s').0 (more s').1)
        → (a : Attempt) (s' : S) → t s ≡ (a, s')
        → Attempts raised t s (after_round raised more a s').0 (after_round raised more a s').1
    go runs done s' e = success e
    go runs (again _) s' e = retried e (runs s')
    go runs (give_up _) s' e = failure e
    go runs (crashed _) s' e = abort e

pub bounded_retrier-IsRetry : (n : ℕ) → IsRetry (bounded_retrier n)
bounded_retrier-IsRetry n S timeout interval t s = rounds-Attempts in_goroutine n t s

pub bounded_poll-Runs : (n : ℕ) → Runs same_goroutine (bounded_poll n)
bounded_poll-Runs n S timeout interval t s = rounds-Attempts same_goroutine n t s
