-- ===== src/Follow/Following.antt =====
-- src/fb/application/follow/follow_user.py, unfollow_user.py and get_following.py
use facebook_clone.Prelude.{ℕ, not, List, map, ◌==◌}
use facebook_clone.Shared.Errors.{ok, cannot_follow_self, already_following, not_following}
use facebook_clone.Shared.Effects.{Effect, pure, lift, gets, raise_if, ◌>>=◌, ◌>>◌}
use facebook_clone.Shared.EntityId.{EntityId, Text, Libraries, from_str}
use facebook_clone.UnitOfWork.{UnitOfWork, async_with, committing}
use facebook_clone.Follow.Repository.{
  FollowTables, create_follow, save, delete, is_following, get_following, get_following_count,
}

-- Of the input of a follow and of an unfollow
pub record FollowInput : Type 0 where
  pub follower_id : Text
  pub following_id : Text

pub record FollowListOutput : Type 0 where
  pub user_ids : List Text
  pub total_count : ℕ

-- The repository calls of `FollowUserUseCase.execute`
unfoldable pub follow : ℕ → EntityId → EntityId → EntityId → Effect FollowTables Unit
follow now new_id follower_id following_id = do
  already ← is_following follower_id following_id
  raise_if already already_following
  save now (create_follow new_id follower_id following_id)
  pure tt

-- `FollowUserUseCase.execute`
unfoldable pub follow_user_use_case :
    Libraries → ℕ → EntityId → FollowInput → Effect (UnitOfWork FollowTables) Unit
follow_user_use_case libs now new_id input = do
  follower_id ← lift (from_str libs input.follower_id)
  following_id ← lift (from_str libs input.following_id)
  raise_if (follower_id == following_id) cannot_follow_self
  async_with (committing (follow now new_id follower_id following_id))

-- The repository calls of `UnfollowUserUseCase.execute`
unfoldable pub unfollow : EntityId → EntityId → Effect FollowTables Unit
unfollow follower_id following_id = do
  already ← is_following follower_id following_id
  raise_if (not already) not_following
  delete follower_id following_id

-- `UnfollowUserUseCase.execute`
unfoldable pub unfollow_user_use_case :
    Libraries → FollowInput → Effect (UnitOfWork FollowTables) Unit
unfollow_user_use_case libs input = do
  follower_id ← lift (from_str libs input.follower_id)
  following_id ← lift (from_str libs input.following_id)
  async_with (committing (unfollow follower_id following_id))

-- `GetFollowingUseCase.execute`
unfoldable pub get_following_use_case :
    Libraries → Text → ℕ → ℕ → Effect FollowTables FollowListOutput
get_following_use_case libs user_id limit offset = do
  uid ← lift (from_str libs user_id)
  following_ids ← gets (λ d. ok (get_following uid limit offset d))
  total ← gets (λ d. ok (get_following_count uid d))
  pure (record { user_ids = map libs.print_uuid following_ids; total_count = total })
