-- ===== src/UnitOfWork.antt =====
-- src/fb/infrastructure/database/unit_of_work.py, and the way that the endpoints use it
-- (src/fb/presentation/rest/v1/*.py): a session for the repositories, and what a commit writes.
pub mod Transactions
pub mod Tests
use facebook_clone.Prelude.{ℕ, ◌+◌, Bool, true, false, Option, none, some, ◌==◌, if◌then◌else◌}
use facebook_clone.Shared.Errors.{Result, ok, err, is_err, runtime_error}
use facebook_clone.Shared.Effects.{Effect, pure, raise, lift, gets, modify, ◌>>=◌, ◌>>◌}

-- A unit of work over tables `D`, with the database and the repositories that it is used with.
pub record UnitOfWork (D : Type 0) : Type 0 where
  -- the committed rows
  pub database : D
  -- the rows as the session of the repositories sees them
  pub view : D
  -- the number of that session
  pub bound : ℕ
  -- `_session`
  pub session : Option ℕ
  -- the sessions that `_session_factory` has made
  pub made : ℕ

module _ {D : Type 0} where
  -- `container.create_uow()`
  abbrev pub create_uow : D → UnitOfWork D
  create_uow d = record { database = d; view = d; bound = 0; session = none; made = 0 }

  -- the property `session`
  unfoldable pub get_session : Effect (UnitOfWork D) ℕ
  get_session u = elim u.session [ none ↦ (err runtime_error, u) | some k ↦ (ok k, u) ]

  -- `__aenter__`
  unfoldable pub aenter : Effect (UnitOfWork D) Unit
  aenter u = (ok tt, record u { session = some u.made; made = u.made + 1 })

  -- `Repository(uow.session)`: the first statement of a new session sees the committed rows.
  unfoldable pub bind_repositories : Effect (UnitOfWork D) Unit
  unfolding get_session
  bind_repositories = do k ← get_session; modify (λ u. record u { bound = k; view = u.database })

  -- A commit of a session makes its rows the committed ones. Only the repositories write rows, so
  -- that another session is committed changes nothing.
  unfoldable pub commit : Effect (UnitOfWork D) Unit
  unfolding get_session
  commit = do
    k ← get_session
    modify (λ u. if k == u.bound then record u { database = u.view } else u)

  -- The rows of a session that ends without a commit are lost.
  discard : ℕ → UnitOfWork D → UnitOfWork D
  discard k u = if k == u.bound then record u { view = u.database } else u

  unfoldable pub rollback : Effect (UnitOfWork D) Unit
  unfolding get_session discard
  rollback = do k ← get_session; modify (discard k)

  -- `__aexit__`: a rollback after an exception, and the close
  unfoldable pub aexit : Bool → UnitOfWork D → UnitOfWork D
  unfolding discard
  aexit raised u = elim u.session [
    | none ↦ u
    | some k ↦ let v = if raised then discard k u else u in record (discard k v) { session = none }
  ]

module _ {D A : Type 0} where
  -- `async with uow: body`
  unfoldable pub async_with : Effect (UnitOfWork D) A → Effect (UnitOfWork D) A
  unfolding aenter aexit
  async_with body = do aenter; λ u. let (r, v) = body u in (r, aexit (is_err r) v)

  -- Calls of the repositories.
  abbrev pub on_session : Effect D A → Effect (UnitOfWork D) A
  on_session rows u = let (r, d) = rows u.view in (r, record u { view = d })

  -- A use case that ends in `await self._uow.commit()` and the return of what it has made.
  unfoldable pub committing : Effect D A → Effect (UnitOfWork D) A
  unfolding commit
  committing rows = do output ← on_session rows; commit; pure output

  -- `try: body except Exception: rollback; raise`
  unfoldable pub rolling_back : Effect (UnitOfWork D) A → Effect (UnitOfWork D) A
  unfolding rollback
  rolling_back body u =
      let (r, v) = body u in elim r [ ok a ↦ (ok a, v) | err e ↦ (do rollback; raise e) v ]

  -- An endpoint: it opens a unit of work, makes the repositories over its session, and calls the
  -- use case. What is left is the response and the committed rows.
  unfoldable pub endpoint : Effect (UnitOfWork D) A → Effect D A
  unfolding async_with bind_repositories
  endpoint use_case d =
      let (r, u) = async_with (do bind_repositories; use_case) (create_uow d) in (r, u.database)
