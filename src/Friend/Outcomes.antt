-- ===== src/Friend/Outcomes.antt =====
-- What a friend request, its answers and the end of a friendship do, on every branch.
use facebook_clone.Prelude.{
  eq_of_==, ℕ, Bool, false, not, ◌≡◌, refl, arith, ◌&&◌, ◌==◌, Option, none, some, inl, inr,
  Option-cases, if◌then◌else◌, ap,
}
use facebook_clone.Shared.Errors.{
  ok, err, already_friends, user_blocked, friend_request_already_exists, friend_request_not_found,
  integrity_error, not_friends,
}
use facebook_clone.Shared.EntityId.{EntityId}
use facebook_clone.Shared.Table.{add, exists, find, insert, update_where, delete_where}
use facebook_clone.Shared.Table.Counting.{scalar_one_or_none-select, find-some}
use facebook_clone.Shared.Table.Existence.{scalar_one_or_none-take, is_some-find}
use facebook_clone.Friend.Entities.{
  FriendRequestStatus, FriendRequest, FriendTables, is_pending, is_blocked, pending, reject,
  create_request,
}
use facebook_clone.Friend.Repository.{
  has_id, is_from_to, is_friendship, is_between, has_user, are_friends, find_request,
  find_request_by_id, save_request, update_request, delete_friendship,
}
use facebook_clone.Friend.Requests.{send, reject_request}
use facebook_clone.Friend.Unfriending.{unfriend}
use facebook_clone.Friend.Invariant.{friends, IsSound, route_le_one, id_le_one}

are_friends_lem : (a b : EntityId) (d : FriendTables) → are_friends a b d ≡ (ok (friends d a b), d)
unfolding are_friends
are_friends_lem a b d =
    rw (scalar_one_or_none-take (is_friendship a b) d.friendships)
      (ap (λ t. (ok t, d)) (is_some-find (is_friendship a b) d.friendships))

find_request_lem :
    (a b : EntityId) (d : FriendTables)
    → IsSound d
    → find_request a b d ≡ (ok (find (is_from_to a b) d.requests), d)
unfolding find_request
find_request_lem a b d s =
    rw (scalar_one_or_none-select (is_from_to a b) d.requests (route_le_one d s a b)) refl

pub find_request_by_id_lem :
    (i : EntityId) (d : FriendTables)
    → IsSound d
    → find_request_by_id i d ≡ (ok (find (has_id i) d.requests), d)
unfolding find_request_by_id
find_request_by_id_lem i d s =
    rw (scalar_one_or_none-select (has_id i) d.requests (id_le_one d s i)) refl

-- The request that a new one would meet: one of the same sender before one of the receiver.
abbrev pub existing : FriendTables → EntityId → EntityId → Option FriendRequest
existing d a b = elim (find (is_from_to a b) d.requests) [
  | none ↦ find (is_from_to b a) d.requests
  | some r ↦ some r
]

abbrev pub has_status : (FriendRequestStatus → Bool) → Option FriendRequest → Bool
has_status test none = false
has_status test (some r) = test r.status

abbrev pub new_request : ℕ → EntityId → EntityId → EntityId → FriendRequest
new_request now i a b = record {
  id = i;
  sender_id = a;
  receiver_id = b;
  status = pending;
  created_at = some now;
}

-- The constraints of the table on a new request
abbrev pub is_permitted : FriendTables → EntityId → EntityId → EntityId → Bool
is_permitted d i a b =
    has_user d a
    && has_user d b
    && not (exists (has_id i) d.requests)
    && not (exists (is_from_to a b) d.requests)

module _ (d : FriendTables) (s : IsSound d) (now new_id a b : ℕ) where
  -- On sound tables a request is refused to friends, and where the request that it would meet, the
  -- sender's before the receiver's, is blocked or pending. Else it is the last row, if the
  -- constraints permit it: users who are there, a new key, and no other request of the sender to
  -- the receiver.
  pub send_outcome : send now new_id a b d ≡ (
      if friends d a b
      then (err already_friends, d)
      else if has_status is_blocked (existing d a b)
      then (err user_blocked, d)
      else if has_status is_pending (existing d a b)
      then (err friend_request_already_exists, d)
      else if is_permitted d new_id a b
      then (
        ok (new_request now new_id a b),
        record d { requests = insert (new_request now new_id a b) d.requests },
      )
      else (err integrity_error, d))
  unfolding send save_request create_request add
  send_outcome =
      ground (arith, are_friends_lem a b d, find_request_lem a b d s, find_request_lem b a d s)

-- The new status of a request that was found
pub update_request_lem :
    (d : FriendTables) (i : EntityId) {m : FriendRequest} (r : FriendRequest)
    → IsSound d
    → find (has_id i) d.requests ≡ some m
    → r.id ≡ i
    → update_request r d ≡ (
      ok (record m { status = r.status }),
      record d {
        requests = update_where (has_id i) (λ x. record x { status = r.status }) d.requests;
      },
    )
unfolding update_request
update_request_lem d i {m} r s f e = rw e (ground (arith, find_request_by_id_lem i d s))

pub id_of_found :
    (d : FriendTables) (i : EntityId) {m : FriendRequest}
    → find (has_id i) d.requests ≡ some m
    → m.id ≡ i
id_of_found d i {m} f = eq_of_== m.id i (find-some (has_id i) d.requests f).0

module _ (d : FriendTables) (s : IsSound d) (request_id user_id : ℕ) where
  -- A rejection marks the request that it names, if that is pending and to the user.
  pub reject_outcome :
      reject_request request_id user_id d ≡ elim (find (has_id request_id) d.requests) [
        | none ↦ (err friend_request_not_found, d)
        | some r ↦
            if is_pending r.status && r.receiver_id == user_id
            then (
              ok (reject r),
              record d { requests = update_where (has_id request_id) reject d.requests },
            )
            else (err friend_request_not_found, d)
      ]
  unfolding reject_request
  reject_outcome = elim (Option-cases (find (has_id request_id) d.requests)) [
    | inl f ↦ ground (arith, find_request_by_id_lem request_id d s)
    | inr (m, f) ↦ ground (
      arith,
      find_request_by_id_lem request_id d s,
      update_request_lem d request_id (reject m) s f (id_of_found d request_id f),
    )
  ]

module _ (a b : EntityId) (d : FriendTables) where
  -- The end of a friendship is refused to users who are no friends, else it deletes both directions.
  pub unfriend_outcome : unfriend a b d ≡ (
      if friends d a b
      then (ok tt, record d { friendships = delete_where (is_between a b) d.friendships })
      else (err not_friends, d))
  unfolding unfriend delete_friendship
  unfriend_outcome = ground (arith, are_friends_lem a b d)
