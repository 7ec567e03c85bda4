-- ===== src/Go/Retry/Rounds.antt =====
-- Retry loops that run their task for a number of rounds, and how they end.
use talisman.Common.{ℕ, suc, ◌≡◌}
use talisman.Go.Results.{Error, ok, in_goroutine}
use talisman.Go.Retry.{done, again, Task, Retrier, rounds, bounded_retrier}

-- The task is done in one of the next rounds, so many at most, and no round before it gives up.
pub data EndsWithin {S : Type 0} (t : Task S) : ℕ → S → S → Type 0 where
  now : {n : ℕ} {s s' : S} → t s ≡ (done, s') → EndsWithin t (suc n) s s'
  later :
      {n : ℕ} {s s' s'' : S} {e : Error}
      → t s ≡ (again e, s')
      → EndsWithin t n s' s''
      → EndsWithin t (suc n) s s''

-- The deadline leaves time for so many rounds.
abbrev pub HasRounds : Retrier → ℕ → ℕ → ℕ → Type 1
HasRounds R timeout interval n =
    (S : Type 0) (t : Task S) (s s' : S)
    → EndsWithin t n s s'
    → R.retry S timeout interval t s ≡ (ok tt, s')

rounds_end :
    {S : Type 0} (t : Task S) {n : ℕ} {s s' : S}
    → EndsWithin t n s s'
    → rounds in_goroutine n t s ≡ (ok tt, s')
unfolding rounds
rounds_end t (now e) = rw e
rounds_end t (later e more) = rw e (rounds_end t more)

pub bounded_retrier-HasRounds :
    (n timeout interval : ℕ) → HasRounds (bounded_retrier n) timeout interval n
bounded_retrier-HasRounds n timeout interval S t s s' h = rounds_end t h
