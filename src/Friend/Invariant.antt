-- ===== src/Friend/Invariant.antt =====
-- The constraints of the tables `friend_requests` and `friendships`, and what holds between them.
use facebook_clone.Prelude.{List, Bool, true, false, ◌≡◌, ◌≤◌, arith, ◌&&◌, ◌==◌, All}
use facebook_clone.Shared.EntityId.{EntityId}
use facebook_clone.Shared.Table.{exists, count}
use facebook_clone.Shared.Table.Keys.{Unique, count-le_of_Unique}
use facebook_clone.Friend.Entities.{FriendRequest, Friendship, FriendTables, is_pending}
use facebook_clone.Friend.Repository.{has_id, is_from_to, is_friendship}

-- The friendships and the pending requests as relations
abbrev pub friends : FriendTables → EntityId → EntityId → Bool
friends d a b = exists (is_friendship a b) d.friendships

abbrev pub is_open : EntityId → EntityId → FriendRequest → Bool
is_open a b r = is_from_to a b r && is_pending r.status

abbrev pub pending_request : FriendTables → EntityId → EntityId → Bool
pending_request d a b = exists (is_open a b) d.requests

abbrev pub same_id : FriendRequest → FriendRequest → Bool
same_id a b = b.id == a.id

abbrev pub same_route : FriendRequest → FriendRequest → Bool
same_route a b = b.sender_id == a.sender_id && b.receiver_id == a.receiver_id

abbrev pub same_pair : Friendship → Friendship → Bool
same_pair a b = b.user_id == a.user_id && b.friend_id == a.friend_id

-- The users of a request are there, and they are not the same user.
abbrev pub IsRequest : List EntityId → FriendRequest → Type 0
IsRequest users r =
    (exists (λ u. u == r.sender_id) users ≡ true)
    × (exists (λ u. u == r.receiver_id) users ≡ true)
    × ((r.sender_id == r.receiver_id) ≡ false)

-- The keys are unique; a friendship goes both ways; and between two users with a pending request
-- there is no friendship, and no pending request the other way.
pub record IsSound (d : FriendTables) : Type 0 where
  pub request_ids : Unique same_id d.requests
  pub request_routes : Unique same_route d.requests
  pub request_rows : All (IsRequest d.users) d.requests
  pub friendship_pairs : Unique same_pair d.friendships
  pub symmetric : (a b : EntityId) → friends d a b ≡ friends d b a
  pub apart : (a b : EntityId) → pending_request d a b ≡ true → friends d a b ≡ false
  pub one_way : (a b : EntityId) → pending_request d a b ≡ true → pending_request d b a ≡ false

module _ (d : FriendTables) (s : IsSound d) where
  pub route_le_one : (a b : EntityId) → count (is_from_to a b) d.requests ≤ 1
  route_le_one a b =
      count-le_of_Unique same_route (is_from_to a b) d.requests (λ x y p q. ground arith)
        s.request_routes

  pub id_le_one : (i : EntityId) → count (has_id i) d.requests ≤ 1
  id_le_one i =
      count-le_of_Unique same_id (has_id i) d.requests (λ x y p q. ground arith) s.request_ids
