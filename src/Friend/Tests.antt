-- ===== src/Friend/Tests.antt =====
-- The theorems on friends at a small database: user 1 has sent a request to user 2, and has had one
-- to user 3 rejected; users 2 and 3 are friends.
use facebook_clone.Prelude.{ap, ◌≡◌, refl, true, some, [], ◌∷◌, arith}
use facebook_clone.Shared.Errors.{ok, err, friend_request_already_exists}
use facebook_clone.Shared.Table.{find, count, exists, update_where}
use facebook_clone.Friend.Entities.{
  FriendRequest, Friendship, FriendTables, pending, rejected, accept,
}
use facebook_clone.Friend.Requests.{send, accept_request}
use facebook_clone.Friend.Unfriending.{unfriend}
use facebook_clone.Friend.Invariant.{IsSound, friends}
use facebook_clone.Friend.Outcomes.{send_outcome, unfriend_outcome}
use facebook_clone.Friend.Acceptance.{accept_outcome, new_friendship}
use facebook_clone.Friend.Soundness.{accept-IsSound, friends-accept}

abbrev open_request : FriendRequest
open_request = record {
  id = 80;
  sender_id = 1;
  receiver_id = 2;
  status = pending;
  created_at = some 5;
}

abbrev old_request : FriendRequest
old_request = record {
  id = 81;
  sender_id = 1;
  receiver_id = 3;
  status = rejected;
  created_at = some 5;
}

abbrev there : Friendship
there = record { id = 90; user_id = 2; friend_id = 3; created_at = some 4 }

abbrev back : Friendship
back = record { id = 91; user_id = 3; friend_id = 2; created_at = some 4 }

abbrev tables : FriendTables
tables = record {
  users = 1 ∷ 2 ∷ 3 ∷ [];
  requests = open_request ∷ old_request ∷ [];
  friendships = there ∷ back ∷ [];
}

tables-IsSound : IsSound tables
unfolding count exists
tables-IsSound = record {
  request_ids = (refl, (refl, tt));
  request_routes = (refl, (refl, tt));
  request_rows = ((refl, refl, refl), ((refl, refl, refl), tt));
  friendship_pairs = (refl, (refl, tt));
  symmetric = λ a b. ground arith;
  apart = λ a b p. ground arith;
  one_way = λ a b p. ground arith;
}

-- A request the other way meets the open one.
send_outcome_example : send 8 82 2 1 tables ≡ (err friend_request_already_exists, tables)
unfolding find exists
send_outcome_example = send_outcome tables tables-IsSound 8 82 2 1

accept_outcome_example : accept_request 8 92 93 80 2 tables ≡ (
  ok (accept open_request),
  record {
    users = 1 ∷ 2 ∷ 3 ∷ [];
    requests = accept open_request ∷ old_request ∷ [];
    friendships = there ∷ back ∷ new_friendship 8 92 1 2 ∷ new_friendship 8 93 2 1 ∷ [];
  },
)
unfolding find exists update_where
accept_outcome_example = accept_outcome tables tables-IsSound 8 92 93 80 2 (refl, refl, refl)

accept-IsSound_example : IsSound (accept_request 8 92 93 80 2 tables).1
unfolding exists
accept-IsSound_example = accept-IsSound tables tables-IsSound 80 2 8 92 93 (refl, refl, refl)

-- The acceptance and the parting that the next two are about
accepted_80 : (accept_request 8 92 93 80 2 tables).0 ≡ ok (accept open_request)
unfolding find exists
accepted_80 = ap (λ r. r.0) (accept_outcome tables tables-IsSound 8 92 93 80 2 (refl, refl, refl))

parted : (unfriend 2 3 tables).0 ≡ ok tt
unfolding exists
parted = ap (λ r. r.0) (unfriend_outcome 2 3 tables)

friends-accept_example : friends (accept_request 8 92 93 80 2 tables).1 2 1 ≡ true
unfolding exists
friends-accept_example =
    friends-accept tables tables-IsSound 8 92 93 80 2 (accept open_request) 2 1 (refl, refl, refl)
      accepted_80
