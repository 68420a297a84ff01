-- ===== src/Friend/Repository.antt =====
-- src/fb/infrastructure/repositories/friend_repo.py
use facebook_clone.Prelude.{
  ℕ, Bool, ◌&&◌, ◌||◌, not, Option, none, some, List, [], ◌∷◌, ◌==◌, map, is_some, take,
}
use facebook_clone.Shared.Errors.{Result, ok, err, value_error}
use facebook_clone.Shared.Effects.{Effect, pure, raise, gets, modify, ◌>>=◌, ◌>>◌}
use facebook_clone.Shared.EntityId.{EntityId}
use facebook_clone.Shared.Table.{
  select, count, exists, delete_where, update_where, scalar_one_or_none, page, add, stored,
}
use facebook_clone.Friend.Entities.{FriendRequest, Friendship, FriendTables, is_pending}

abbrev pub has_id : EntityId → FriendRequest → Bool
has_id i r = r.id == i

abbrev pub is_from_to : EntityId → EntityId → FriendRequest → Bool
is_from_to sender_id receiver_id r = r.sender_id == sender_id && r.receiver_id == receiver_id

abbrev pub is_friendship : EntityId → EntityId → Friendship → Bool
is_friendship user_id friend_id f = f.user_id == user_id && f.friend_id == friend_id

abbrev pub has_user : FriendTables → EntityId → Bool
has_user d i = exists (λ u. u == i) d.users

unfoldable pub find_request : EntityId → EntityId → Effect FriendTables (Option FriendRequest)
find_request sender_id receiver_id =
    gets (λ d. scalar_one_or_none (select (is_from_to sender_id receiver_id) d.requests))

unfoldable pub find_request_by_id : EntityId → Effect FriendTables (Option FriendRequest)
find_request_by_id request_id =
    gets (λ d. scalar_one_or_none (select (has_id request_id) d.requests))

-- The primary key, the unique constraint on sender and receiver, and the foreign keys
unfoldable pub save_request : ℕ → FriendRequest → Effect FriendTables FriendRequest
unfolding add
save_request now request d =
    let row = record request { created_at = some now } in
    stored (λ rows t. record t { requests = rows })
      (add
        (has_user d row.sender_id
          && has_user d row.receiver_id
          && not (exists (has_id row.id) d.requests)
          && not (exists (is_from_to row.sender_id row.receiver_id) d.requests))
        row d.requests)
      d

abbrev pub update_found : FriendRequest → Option FriendRequest → Effect FriendTables FriendRequest
update_found request none = raise value_error
update_found request (some model) = do
  modify (λ d. record d {
    requests =
        update_where (has_id request.id) (λ r. record r { status = request.status }) d.requests;
  })
  pure (record model { status = request.status })

unfoldable pub update_request : FriendRequest → Effect FriendTables FriendRequest
unfolding find_request_by_id
update_request request = do model ← find_request_by_id request.id; update_found request model

unfoldable pub save_friendship : ℕ → Friendship → Effect FriendTables Friendship
unfolding add
save_friendship now friendship d =
    let row = record friendship { created_at = some now } in
    stored (λ rows t. record t { friendships = rows })
      (add
        (has_user d row.user_id
          && has_user d row.friend_id
          && not (exists (λ (f : Friendship). f.id == row.id) d.friendships)
          && not (exists (is_friendship row.user_id row.friend_id) d.friendships))
        row d.friendships)
      d

-- Both directions
abbrev pub is_between : EntityId → EntityId → Friendship → Bool
is_between user_id friend_id f =
    is_friendship user_id friend_id f || is_friendship friend_id user_id f

unfoldable pub delete_friendship : EntityId → EntityId → Effect FriendTables Unit
delete_friendship user_id friend_id =
    modify
      (λ d. record d { friendships = delete_where (is_between user_id friend_id) d.friendships })

abbrev pub is_some_row : Result (Option Friendship) → Result Bool
is_some_row (ok o) = ok (is_some o)
is_some_row (err e) = err e

unfoldable pub are_friends : EntityId → EntityId → Effect FriendTables Bool
are_friends user_id friend_id = gets (λ d.
    is_some_row
      (scalar_one_or_none (take 1 (select (is_friendship user_id friend_id) d.friendships))))

abbrev pub is_friend_of : EntityId → Friendship → Bool
is_friend_of user_id f = f.user_id == user_id

-- The queries have no ORDER BY: the order is that of the table.
unfoldable pub get_friends : EntityId → ℕ → ℕ → FriendTables → List EntityId
get_friends user_id limit offset d =
    map (λ (f : Friendship). f.friend_id)
      (page limit offset (select (is_friend_of user_id) d.friendships))

unfoldable pub get_pending_requests : EntityId → FriendTables → List FriendRequest
get_pending_requests user_id d =
    select (λ r. r.receiver_id == user_id && is_pending r.status) d.requests

unfoldable pub get_mutual_friends : EntityId → EntityId → FriendTables → List EntityId
get_mutual_friends user_id other_id d =
    map (λ (f : Friendship). f.friend_id)
      (select
        (λ f. is_friend_of user_id f && exists (is_friendship other_id f.friend_id) d.friendships)
        d.friendships)

-- The total is read from the first row of the page, so an empty page counts nothing.
unfoldable pub get_friends_with_count : EntityId → ℕ → ℕ → FriendTables → List EntityId × ℕ
unfolding get_friends
get_friends_with_count user_id limit offset d = elim (get_friends user_id limit offset d) [
  | [] ↦ ([], 0)
  | f ∷ friends ↦ (f ∷ friends, count (is_friend_of user_id) d.friendships)
]

unfoldable pub get_friend_count : EntityId → FriendTables → ℕ
get_friend_count user_id d = count (is_friend_of user_id) d.friendships
