-- ===== src/Friend/Acceptance.antt =====
-- What the acceptance of a request does, on every branch.
use facebook_clone.Prelude.{
  ℕ, Bool, true, false, ◌≡◌, refl, arith, ◌&&◌, ◌==◌, none, some, Bool-cases, inl, inr,
  Option-cases, if◌then◌else◌, ap, ◌∙◌,
}
use facebook_clone.Shared.Errors.{ok, err, friend_request_not_found}
use facebook_clone.Shared.EntityId.{EntityId}
use facebook_clone.Shared.Table.{add, exists, find, insert, update_where}
use facebook_clone.Shared.Table.Counting.{All-find}
use facebook_clone.Shared.Table.Existence.{exists-inserted, exists_of_found}
use facebook_clone.Friend.Entities.{
  FriendRequest, Friendship, FriendTables, is_pending, accept, create_pair,
}
use facebook_clone.Friend.Repository.{has_id, is_friendship, save_friendship, has_user}
use facebook_clone.Friend.Requests.{accept_request}
use facebook_clone.Friend.Invariant.{friends, IsSound, pending_request, is_open, IsRequest}
use facebook_clone.Friend.Outcomes.{find_request_by_id_lem, update_request_lem, id_of_found}

abbrev pub new_friendship : ℕ → EntityId → EntityId → EntityId → Friendship
new_friendship now i a b = record { id = i; user_id = a; friend_id = b; created_at = some now }

abbrev pub has_key : EntityId → Friendship → Bool
has_key i f = f.id == i

-- The two keys are new, and not the same.
abbrev pub AreNew : FriendTables → EntityId → EntityId → Type 0
AreNew d i j =
    (exists (has_key i) d.friendships ≡ false)
    × (exists (has_key j) d.friendships ≡ false)
    × ((i == j) ≡ false)

-- The tables with both directions of a friendship
abbrev pub befriended : ℕ → EntityId → EntityId → FriendRequest → FriendTables → FriendTables
befriended now i j r d = record {
  users = d.users;
  requests = update_where (has_id r.id) accept d.requests;
  friendships =
      insert (new_friendship now j r.receiver_id r.sender_id)
        (insert (new_friendship now i r.sender_id r.receiver_id) d.friendships);
}

module _ (d : FriendTables) (s : IsSound d) (i : EntityId) {m : FriendRequest} where
  -- A request that was found, pending or not.
  pub pending_of_found :
      find (has_id i) d.requests ≡ some m
      → is_pending m.status ≡ true
      → pending_request d m.sender_id m.receiver_id ≡ true
  pending_of_found f p =
      exists_of_found (has_id i) (is_open m.sender_id m.receiver_id) d.requests f (ground arith)

  pub row_of_found : find (has_id i) d.requests ≡ some m → IsRequest d.users m
  row_of_found f = All-find (IsRequest d.users) (has_id i) d.requests s.request_rows f

-- A friendship whose users are there and whose keys are new is stored.
save_friendship_lem :
    (now i a b : ℕ) (d : FriendTables)
    → has_user d a ≡ true
    → has_user d b ≡ true
    → exists (has_key i) d.friendships ≡ false
    → friends d a b ≡ false
    → save_friendship now (record { id = i; user_id = a; friend_id = b; created_at = none }) d ≡ (
      ok (new_friendship now i a b),
      record d { friendships = insert (new_friendship now i a b) d.friendships },
    )
unfolding save_friendship add
save_friendship_lem now i a b d u v k n = ground arith

module _ (d : FriendTables) (s : IsSound d) (now i j request_id user_id : ℕ)
    (new : AreNew d i j) where
  -- On sound tables and with new keys, an acceptance succeeds if the request that it names is
  -- pending and to the user, and befriends both, in both directions; else it is refused and changes
  -- nothing.
  pub accept_outcome :
      accept_request now i j request_id user_id d ≡ elim (find (has_id request_id) d.requests) [
        | none ↦ (err friend_request_not_found, d)
        | some r ↦
            if is_pending r.status && r.receiver_id == user_id
            then (ok (accept r), befriended now i j r d)
            else (err friend_request_not_found, d)
      ]
  unfolding accept_request create_pair
  accept_outcome = elim (Option-cases (find (has_id request_id) d.requests)) [
    | inl f ↦ ground (arith, find_request_by_id_lem request_id d s)
    | inr (m, f) ↦ rw f (elim (Bool-cases (is_pending m.status && m.receiver_id == user_id)) [
      | inl p ↦
          let g : find (has_id m.id) d.requests ≡ some m =
            ap (λ k. find (has_id k) d.requests) (id_of_found d request_id f) ∙ f in
          let row = row_of_found d s request_id f in
          let apart =
            s.apart m.sender_id m.receiver_id (pending_of_found d s request_id f (ground arith)) in
          ground (
            arith,
            find_request_by_id_lem request_id d s,
            update_request_lem d m.id (accept m) s g refl,
            row,
            apart,
            s.symmetric m.sender_id m.receiver_id,
            save_friendship_lem now i m.sender_id m.receiver_id
                (record d { requests = update_where (has_id m.id) accept d.requests }),
            save_friendship_lem now j m.receiver_id m.sender_id (record d {
              requests = update_where (has_id m.id) accept d.requests;
              friendships = insert (new_friendship now i m.sender_id m.receiver_id) d.friendships;
            }),
            exists-inserted (has_key j) (new_friendship now i m.sender_id m.receiver_id)
                d.friendships,
            exists-inserted (is_friendship m.receiver_id m.sender_id)
                (new_friendship now i m.sender_id m.receiver_id) d.friendships,
          )
      | inr p ↦ ground (arith, find_request_by_id_lem request_id d s)
    ])
  ]
