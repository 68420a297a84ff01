-- ===== src/Friend/Unfriending.antt =====
-- src/fb/application/friend/unfriend.py and mutual_friends.py
use facebook_clone.Prelude.{ℕ, not, List, length, map}
use facebook_clone.Shared.Errors.{ok, not_friends}
use facebook_clone.Shared.Effects.{Effect, pure, lift, gets, raise_if, ◌>>=◌, ◌>>◌}
use facebook_clone.Shared.EntityId.{EntityId, Text, Libraries, from_str}
use facebook_clone.UnitOfWork.{UnitOfWork, async_with, committing}
use facebook_clone.Friend.Entities.{FriendTables}
use facebook_clone.Friend.Repository.{are_friends, delete_friendship, get_mutual_friends}

pub record UnfriendInput : Type 0 where
  pub user_id : Text
  pub friend_id : Text

pub record FriendListOutput : Type 0 where
  pub friend_ids : List Text
  pub total_count : ℕ

-- The repository calls of `UnfriendUseCase.execute`
unfoldable pub unfriend : EntityId → EntityId → Effect FriendTables Unit
unfriend user_id friend_id = do
  friends ← are_friends user_id friend_id
  raise_if (not friends) not_friends
  delete_friendship user_id friend_id

-- `UnfriendUseCase.execute`
unfoldable pub unfriend_use_case : Libraries → UnfriendInput → Effect (UnitOfWork FriendTables) Unit
unfriend_use_case libs input = do
  user_id ← lift (from_str libs input.user_id)
  friend_id ← lift (from_str libs input.friend_id)
  async_with (committing (unfriend user_id friend_id))

-- `MutualFriendsUseCase.execute`
unfoldable pub mutual_friends : Libraries → Text → Text → Effect FriendTables FriendListOutput
mutual_friends libs user other = do
  user_id ← lift (from_str libs user)
  other_id ← lift (from_str libs other)
  mutual_ids ← gets (λ d. ok (get_mutual_friends user_id other_id d))
  pure (record { friend_ids = map libs.print_uuid mutual_ids; total_count = length mutual_ids })
