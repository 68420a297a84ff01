-- ===== src/Friend/Rows.antt =====
-- What each kind of write does to sound tables.
use facebook_clone.Prelude.{
  ℕ, true, false, not, ◌≡◌, refl, arith, ◌&&◌, ◌||◌, ◌==◌, Bool-cases, inl, inr, Option-cases, ◌∙◌,
}
use facebook_clone.Shared.EntityId.{EntityId}
use facebook_clone.Shared.Table.{exists, find, insert, update_where, delete_where}
use facebook_clone.Shared.Table.Counting.{
  not_exists_of_find, All-insert, All-update_where, count-of_not_exists,
}
use facebook_clone.Shared.Table.Existence.{
  exists-inserted, exists-update_le, exists-kept, exists-deleted, is_some-find, exists_mono,
  exists_of_one,
}
use facebook_clone.Shared.Table.Keys.{Unique-insert, Unique-update_where, Unique-delete_where}
use facebook_clone.Friend.Entities.{FriendRequestStatus, FriendRequest, FriendTables, is_pending}
use facebook_clone.Friend.Repository.{has_id, is_from_to, is_friendship, is_between}
use facebook_clone.Friend.Invariant.{
  friends, IsSound, pending_request, is_open, IsRequest, same_id, same_route, same_pair,
  route_le_one,
}
use facebook_clone.Friend.Outcomes.{existing, has_status, new_request, is_permitted}
use facebook_clone.Friend.Acceptance.{new_friendship}

module _ (d : FriendTables) (s : IsSound d) where
  module _ (now i a b : ℕ) where
    -- A new request adds one pending pair.
    pub pending-inserted :
        (x y : EntityId)
        → pending_request (record d { requests = insert (new_request now i a b) d.requests }) x y
          ≡ (pending_request d x y || (a == x && b == y))
    pending-inserted x y =
        exists-inserted (is_open x y) (new_request now i a b) d.requests ∙ ground arith

    -- The way back is free where the existing request is not pending, and the way is.
    pub free_back :
        has_status is_pending (existing d a b) ≡ false
        → exists (is_from_to a b) d.requests ≡ false
        → pending_request d b a ≡ false
    free_back h n = elim (Option-cases (find (is_from_to b a) d.requests)) [
      | inl e ↦
          exists_mono (is_open b a) (is_from_to b a) d.requests (λ r g. ground arith)
            (not_exists_of_find (is_from_to b a) d.requests e)
      | inr (r, e) ↦
          exists_of_one (is_from_to b a) (λ r. is_pending r.status) d.requests e
            (route_le_one d s b a) (ground (arith, is_some-find (is_from_to a b) d.requests))
    ]

    pub insert-IsSound :
        (a == b) ≡ false
        → friends d a b ≡ false
        → pending_request d b a ≡ false
        → is_permitted d i a b ≡ true
        → IsSound (record d { requests = insert (new_request now i a b) d.requests })
    insert-IsSound n f b' p =
        let r = new_request now i a b in
        record {
          request_ids =
              Unique-insert same_id r d.requests (λ x y. ground arith)
                (count-of_not_exists (has_id i) d.requests (ground arith)) s.request_ids;
          request_routes =
              Unique-insert same_route r d.requests (λ x y. ground arith)
                (count-of_not_exists (is_from_to a b) d.requests (ground arith)) s.request_routes;
          request_rows =
              All-insert (IsRequest d.users) r d.requests (ground arith, ground arith, n)
                s.request_rows;
          friendship_pairs = s.friendship_pairs;
          symmetric = s.symmetric;
          apart = λ x y q. ground (arith, pending-inserted x y, s.apart x y);
          one_way =
              λ x y q. ground (arith, pending-inserted x y, pending-inserted y x, s.one_way x y);
        }

  -- No pair is pending after an answer that was not.
  pub pending_of_answered :
      (i : EntityId) (st : FriendRequestStatus) (x y : EntityId)
      → is_pending st ≡ false
      → exists (is_open x y) (update_where (has_id i) (λ r. record r { status = st }) d.requests)
        ≡ true
      → pending_request d x y ≡ true
  pending_of_answered i st x y h =
      exists-update_le (is_open x y) (has_id i) (λ r. record r { status = st }) d.requests
        (λ r e. ground arith)

  -- An answer takes a pending request away.
  pub answer-IsSound :
      (i : EntityId) (st : FriendRequestStatus)
      → is_pending st ≡ false
      → IsSound (record d {
        requests = update_where (has_id i) (λ r. record r { status = st }) d.requests;
      })
  answer-IsSound i st h =
      let mark : FriendRequest → FriendRequest = λ r. record r { status = st } in
      record {
        request_ids =
            Unique-update_where same_id (has_id i) mark d.requests (λ x y. refl) (λ x y. refl)
              s.request_ids;
        request_routes =
            Unique-update_where same_route (has_id i) mark d.requests (λ x y. refl) (λ x y. refl)
              s.request_routes;
        request_rows =
            All-update_where (IsRequest d.users) (IsRequest d.users) (has_id i) mark d.requests
              (λ x p e. p) (λ x p e. p) s.request_rows;
        friendship_pairs = s.friendship_pairs;
        symmetric = s.symmetric;
        apart = λ x y q. s.apart x y (pending_of_answered i st x y h q);
        one_way = λ x y q.
            elim (Bool-cases (exists (is_open y x) (update_where (has_id i) mark d.requests))) [
              | inl e ↦ ground (
                arith,
                pending_of_answered i st y x h e,
                pending_of_answered i st x y h q,
                s.one_way x y,
              )
              | inr e ↦ e
            ];
      }

  -- Both directions of a new friendship, between users whose request is no longer pending.
  module _ (now i j a b : ℕ) where
    abbrev pub with_pair : FriendTables
    with_pair = record d {
      friendships =
          insert (new_friendship now j b a) (insert (new_friendship now i a b) d.friendships);
    }

    pub friends-with_pair :
        (x y : EntityId)
        → friends with_pair x y ≡ (friends d x y || (a == x && b == y) || (b == x && a == y))
    friends-with_pair x y = ground (
      arith,
      exists-inserted (is_friendship x y) (new_friendship now j b a)
          (insert (new_friendship now i a b) d.friendships),
      exists-inserted (is_friendship x y) (new_friendship now i a b) d.friendships,
    )

    pub with_pair-IsSound :
        (a == b) ≡ false
        → friends d a b ≡ false
        → pending_request d a b ≡ false
        → pending_request d b a ≡ false
        → IsSound with_pair
    with_pair-IsSound n f p q = record {
      request_ids = s.request_ids;
      request_routes = s.request_routes;
      request_rows = s.request_rows;
      friendship_pairs =
          Unique-insert same_pair (new_friendship now j b a)
            (insert (new_friendship now i a b) d.friendships) (λ x y. ground arith)
            (count-of_not_exists (is_friendship b a)
              (insert (new_friendship now i a b) d.friendships)
              (ground (
                arith,
                exists-inserted (is_friendship b a) (new_friendship now i a b) d.friendships,
                s.symmetric a b,
              )))
            (Unique-insert same_pair (new_friendship now i a b) d.friendships (λ x y. ground arith)
              (count-of_not_exists (is_friendship a b) d.friendships f) s.friendship_pairs);
      symmetric =
          λ x y. ground (arith, friends-with_pair x y, friends-with_pair y x, s.symmetric x y);
      apart = λ x y e. ground (arith, friends-with_pair x y, s.apart x y e);
      one_way = s.one_way;
    }

    -- No friendship of the two is left.
    abbrev pub without_pair : FriendTables
    without_pair = record d { friendships = delete_where (is_between a b) d.friendships }

    pub friends-without_pair :
        (x y : EntityId)
        → friends without_pair x y
          ≡ (friends d x y && not ((a == x && b == y) || (b == x && a == y)))
    friends-without_pair x y = elim (Bool-cases ((a == x && b == y) || (b == x && a == y))) [
      | inl e ↦ ground (
        arith,
        exists-deleted (is_friendship x y) (is_between a b) d.friendships (λ f g. ground arith),
      )
      | inr e ↦ ground (
        arith,
        exists-kept (is_friendship x y) (is_between a b) d.friendships (λ f g. ground arith),
      )
    ]

    pub without_pair-IsSound : IsSound without_pair
    without_pair-IsSound = record {
      request_ids = s.request_ids;
      request_routes = s.request_routes;
      request_rows = s.request_rows;
      friendship_pairs =
          Unique-delete_where same_pair (is_between a b) d.friendships s.friendship_pairs;
      symmetric = λ x y.
          ground (arith, friends-without_pair x y, friends-without_pair y x, s.symmetric x y);
      apart = λ x y e. ground (arith, friends-without_pair x y, s.apart x y e);
      one_way = s.one_way;
    }
