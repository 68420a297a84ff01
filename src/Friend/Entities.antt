-- ===== src/Friend/Entities.antt =====
-- src/fb/domain/friend/entities.py and value_objects.py, and the tables of
-- src/fb/infrastructure/database/models/friend.py. A row is the entity that the repository reads.
use facebook_clone.Prelude.{ℕ, Bool, true, false, Option, none, List}
use facebook_clone.Shared.EntityId.{EntityId, Text}
use facebook_clone.Shared.Text.{codes}

pub data FriendRequestStatus : Type 0 where
  pending accepted rejected blocked : FriendRequestStatus

-- `status.value`
unfoldable pub status_value : FriendRequestStatus → Text
status_value pending = codes "pending"
status_value accepted = codes "accepted"
status_value rejected = codes "rejected"
status_value blocked = codes "blocked"

abbrev pub is_pending : FriendRequestStatus → Bool
is_pending pending = true
is_pending _ = false

abbrev pub is_blocked : FriendRequestStatus → Bool
is_blocked blocked = true
is_blocked _ = false

pub record FriendRequest : Type 0 where
  pub id : EntityId
  pub sender_id : EntityId
  pub receiver_id : EntityId
  pub status : FriendRequestStatus
  pub created_at : Option ℕ

-- `FriendRequest.create`
unfoldable pub create_request : EntityId → EntityId → EntityId → FriendRequest
create_request new_id sender_id receiver_id = record {
  id = new_id;
  sender_id = sender_id;
  receiver_id = receiver_id;
  status = pending;
  created_at = none;
}

abbrev pub accept : FriendRequest → FriendRequest
accept request = record request { status = accepted }

abbrev pub reject : FriendRequest → FriendRequest
reject request = record request { status = rejected }

abbrev pub block : FriendRequest → FriendRequest
block request = record request { status = blocked }

-- One direction of a friendship
pub record Friendship : Type 0 where
  pub id : EntityId
  pub user_id : EntityId
  pub friend_id : EntityId
  pub created_at : Option ℕ

-- `Friendship.create_pair`
unfoldable pub create_pair : EntityId → EntityId → EntityId → EntityId → Friendship × Friendship
create_pair new_id other_id user_id friend_id = (
  record { id = new_id; user_id = user_id; friend_id = friend_id; created_at = none },
  record { id = other_id; user_id = friend_id; friend_id = user_id; created_at = none },
)

pub record FriendTables : Type 0 where
  -- the primary keys of the table `users`
  pub users : List EntityId
  pub requests : List FriendRequest
  pub friendships : List Friendship
