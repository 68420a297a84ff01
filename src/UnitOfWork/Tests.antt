-- ===== src/UnitOfWork/Tests.antt =====
-- The theorems on units of work at the calls that follow a user.
use facebook_clone.Prelude.{◌≡◌, [], ◌∷◌}
use facebook_clone.Shared.Errors.{ok}
use facebook_clone.UnitOfWork.{endpoint, committing, async_with}
use facebook_clone.UnitOfWork.Transactions.{endpoint-committing, endpoint-async_with}
use facebook_clone.Shared.Table.{scalar_one_or_none, select, exists}
use facebook_clone.Prelude.{take}
use facebook_clone.Follow.Repository.{FollowTables, is_following, save, create_follow}
use facebook_clone.Follow.Following.{follow}
use facebook_clone.Follow.Outcomes.{new_follow}

abbrev tables : FollowTables
tables = record { users = 1 ∷ 2 ∷ []; follows = [] }

endpoint-committing_example :
    endpoint (committing (follow 8 70 1 2)) tables
    ≡ (ok tt, record tables { follows = new_follow 8 70 1 2 ∷ [] })
unfolding follow is_following scalar_one_or_none take select save exists create_follow
endpoint-committing_example = endpoint-committing (follow 8 70 1 2) tables

endpoint-async_with_example :
    endpoint (async_with (committing (follow 8 70 1 2))) tables ≡ (ok tt, tables)
unfolding follow is_following scalar_one_or_none take select save exists create_follow
endpoint-async_with_example = endpoint-async_with (follow 8 70 1 2) tables
