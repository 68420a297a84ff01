-- ===== src/UnitOfWork/Transactions.antt =====
-- What an endpoint leaves in the database.
use facebook_clone.Prelude.{◌≡◌, arith}
use facebook_clone.Shared.Errors.{Result, ok, err}
use facebook_clone.Shared.Effects.{Effect, pure, ◌>>=◌}
use facebook_clone.UnitOfWork.{async_with, committing, rolling_back, endpoint}

-- What a transaction leaves: the rows that its calls have made, or on an error those from before.
abbrev pub all_or_nothing : {D A : Type 0} → D → Result A × D → Result A × D
all_or_nothing d (ok a, d') = (ok a, d')
all_or_nothing d (err e, d') = (err e, d)

module _ {D A : Type 0} (rows : Effect D A) (d : D) where
  -- A use case that commits in the unit of work of its endpoint is a transaction: the endpoint
  -- answers as its repository calls do, and the database gets all their writes, or on an error
  -- none.
  pub endpoint-committing : endpoint (committing rows) d ≡ all_or_nothing d (rows d)
  unfolding endpoint committing
  endpoint-committing = ground arith

  -- A use case that enters the unit of work of its endpoint once more and commits: the endpoint
  -- answers as the repository calls do, and the database is unchanged.
  pub endpoint-async_with : endpoint (async_with (committing rows)) d ≡ ((rows d).0, d)
  unfolding endpoint committing async_with
  endpoint-async_with = ground arith

  -- A use case that enters the unit of work of its endpoint once more, commits, and rolls back and
  -- raises again on an exception: the endpoint answers as the repository calls do, and the database
  -- is unchanged.
  pub endpoint-rolling_back :
      endpoint (async_with (rolling_back (committing rows))) d ≡ ((rows d).0, d)
  unfolding endpoint committing async_with rolling_back
  endpoint-rolling_back = ground arith

-- What a use case makes of its answer after the commit
abbrev pub answering : {D A B : Type 0} → (A → B) → Result A × D → Result B × D
answering f (ok a, d) = (ok (f a), d)
answering f (err e, d) = (err e, d)

module _ {D A B : Type 0} (rows : Effect D A) (f : A → B) (d : D) where
  -- A use case that makes something more of what it has committed.
  pub endpoint-committing_then :
      endpoint (do a ← committing rows; pure (f a)) d ≡ answering f (all_or_nothing d (rows d))
  unfolding endpoint committing
  endpoint-committing_then = ground arith

  -- A use case that enters the unit of work of its endpoint once more, commits and makes something
  -- of the answer: nothing reaches the database.
  pub endpoint-async_with_then :
      endpoint (async_with (do a ← committing rows; pure (f a))) d ≡ ((answering f (rows d)).0, d)
  unfolding endpoint committing async_with
  endpoint-async_with_then = ground arith
