-- ===== src/Friend/Requests.antt =====
-- src/fb/application/friend/send_request.py, accept_request.py and reject_request.py
use facebook_clone.Prelude.{ℕ, not, Option, none, some, ◌==◌}
use facebook_clone.Shared.Errors.{
  cannot_friend_self, already_friends, user_blocked, friend_request_already_exists,
  friend_request_not_found,
}
use facebook_clone.Shared.Effects.{Effect, pure, lift, raise_if, or_raise, ◌>>=◌, ◌>>◌}
use facebook_clone.Shared.EntityId.{EntityId, Text, Libraries, from_str}
use facebook_clone.UnitOfWork.{UnitOfWork, async_with, committing}
use facebook_clone.Friend.Entities.{
  FriendRequest, FriendTables, status_value, is_pending, is_blocked, create_request, accept, reject,
  create_pair,
}
use facebook_clone.Friend.Repository.{
  find_request, find_request_by_id, save_request, update_request, save_friendship, are_friends,
}

pub record SendRequestInput : Type 0 where
  pub sender_id : Text
  pub receiver_id : Text

-- Of the input of an acceptance and of a rejection
pub record AcceptRequestInput : Type 0 where
  pub request_id : Text
  pub user_id : Text

pub record FriendRequestOutput : Type 0 where
  pub id : Text
  pub sender_id : Text
  pub receiver_id : Text
  pub status : Text

abbrev pub request_output : Libraries → FriendRequest → FriendRequestOutput
request_output libs saved = record {
  id = libs.print_uuid saved.id;
  sender_id = libs.print_uuid saved.sender_id;
  receiver_id = libs.print_uuid saved.receiver_id;
  status = status_value saved.status;
}

-- `if existing is None: existing = find_request(receiver_id, sender_id)`
abbrev pub or_reverse :
    EntityId → EntityId → Option FriendRequest → Effect FriendTables (Option FriendRequest)
or_reverse sender_id receiver_id none = find_request receiver_id sender_id
or_reverse sender_id receiver_id (some existing) = pure (some existing)

abbrev pub refuse_existing : Option FriendRequest → Effect FriendTables Unit
refuse_existing none = pure tt
refuse_existing (some existing) = do
  raise_if (is_blocked existing.status) user_blocked
  raise_if (is_pending existing.status) friend_request_already_exists

-- The repository calls of `SendRequestUseCase.execute`
unfoldable pub send : ℕ → EntityId → EntityId → EntityId → Effect FriendTables FriendRequest
send now new_id sender_id receiver_id = do
  friends ← are_friends sender_id receiver_id
  raise_if friends already_friends
  found ← find_request sender_id receiver_id
  existing ← or_reverse sender_id receiver_id found
  refuse_existing existing
  save_request now (create_request new_id sender_id receiver_id)

-- `SendRequestUseCase.execute`
unfoldable pub send_request_use_case :
    Libraries
    → ℕ
    → EntityId
    → SendRequestInput
    → Effect (UnitOfWork FriendTables) FriendRequestOutput
send_request_use_case libs now new_id input = do
  sender_id ← lift (from_str libs input.sender_id)
  receiver_id ← lift (from_str libs input.receiver_id)
  raise_if (sender_id == receiver_id) cannot_friend_self
  saved ← async_with (committing (send now new_id sender_id receiver_id))
  pure (request_output libs saved)

-- The three checks that an answer to a request begins with
abbrev pub to_answer : EntityId → EntityId → Effect FriendTables FriendRequest
to_answer request_id user_id = do
  found ← find_request_by_id request_id
  friend_request ← or_raise found friend_request_not_found
  raise_if (not (is_pending friend_request.status)) friend_request_not_found
  raise_if (not (friend_request.receiver_id == user_id)) friend_request_not_found
  pure friend_request

-- The repository calls of `AcceptRequestUseCase.execute`, with the keys of the two new rows
unfoldable pub accept_request :
    ℕ → EntityId → EntityId → EntityId → EntityId → Effect FriendTables FriendRequest
accept_request now new_id other_id request_id user_id = do
  friend_request ← to_answer request_id user_id
  let accepted = accept friend_request
  update_request accepted
  let pair = create_pair new_id other_id accepted.sender_id accepted.receiver_id
  save_friendship now pair.0
  save_friendship now pair.1
  pure accepted

-- `AcceptRequestUseCase.execute`
unfoldable pub accept_request_use_case :
    Libraries
    → ℕ
    → EntityId
    → EntityId
    → AcceptRequestInput
    → Effect (UnitOfWork FriendTables) FriendRequestOutput
accept_request_use_case libs now new_id other_id input = do
  request_id ← lift (from_str libs input.request_id)
  user_id ← lift (from_str libs input.user_id)
  accepted ← async_with (committing (accept_request now new_id other_id request_id user_id))
  pure (request_output libs accepted)

-- The repository calls of `RejectRequestUseCase.execute`
unfoldable pub reject_request : EntityId → EntityId → Effect FriendTables FriendRequest
reject_request request_id user_id = do
  friend_request ← to_answer request_id user_id
  let rejected = reject friend_request
  update_request rejected
  pure rejected

-- `RejectRequestUseCase.execute`
unfoldable pub reject_request_use_case :
    Libraries → AcceptRequestInput → Effect (UnitOfWork FriendTables) FriendRequestOutput
reject_request_use_case libs input = do
  request_id ← lift (from_str libs input.request_id)
  user_id ← lift (from_str libs input.user_id)
  rejected ← async_with (committing (reject_request request_id user_id))
  pure (request_output libs rejected)
