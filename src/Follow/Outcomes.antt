-- ===== src/Follow/Outcomes.antt =====
-- What a follow and an unfollow do, on every branch, and what their endpoints leave.
use facebook_clone.Prelude.{
  ℕ, Bool, not, some, ◌≡◌, arith, ◌&&◌, ◌||◌, ◌==◌, if◌then◌else◌, Bool-cases, inl, inr, ap,
}
use facebook_clone.Shared.Errors.{ok, err, already_following, not_following, integrity_error}
use facebook_clone.Shared.EntityId.{EntityId, Libraries}
use facebook_clone.Shared.Table.{add, exists, delete_where, insert}
use facebook_clone.Shared.Table.Existence.{
  scalar_one_or_none-take, is_some-find, exists-inserted, exists-deleted, exists-kept,
  delete_where-insert,
}
use facebook_clone.UnitOfWork.{endpoint, async_with, committing}
use facebook_clone.Follow.Repository.{
  Follow, FollowTables, has_user, has_id, is_follow, is_following, save, delete, create_follow,
}
use facebook_clone.Follow.Following.{
  FollowInput, follow, unfollow, follow_user_use_case, unfollow_user_use_case,
}

-- The follows as a relation.
abbrev pub follows : FollowTables → EntityId → EntityId → Bool
follows d a b = exists (is_follow a b) d.follows

-- The constraints on the row, the unique pair aside.
abbrev pub is_permitted : FollowTables → EntityId → EntityId → EntityId → Bool
is_permitted d new_id a b = has_user d a && has_user d b && not (exists (has_id new_id) d.follows)

abbrev pub new_follow : ℕ → EntityId → EntityId → EntityId → Follow
new_follow now new_id a b = record {
  id = new_id;
  follower_id = a;
  following_id = b;
  created_at = some now;
}

is_following_lem :
    (a b : EntityId) (d : FollowTables) → is_following a b d ≡ (ok (follows d a b), d)
unfolding is_following
is_following_lem a b d =
    rw (scalar_one_or_none-take (is_follow a b) d.follows)
      (ap (λ t. (ok t, d)) (is_some-find (is_follow a b) d.follows))

module _ (a b : ℕ) (d : FollowTables) where
  -- An unfollow is refused where there is no follow of the pair, else none of the pair is left.
  pub unfollow_outcome : unfollow a b d ≡ (
      if follows d a b
      then (ok tt, record d { follows = delete_where (is_follow a b) d.follows })
      else (err not_following, d))
  unfolding unfollow delete
  unfollow_outcome = ground (arith, is_following_lem a b d)

  -- After an unfollow that succeeds the follower no longer follows the other, and nobody else's
  -- follows differ.
  pub follows-unfollow :
      (x y : EntityId)
      → (unfollow a b d).0 ≡ ok tt
      → follows (unfollow a b d).1 x y ≡ (follows d x y && not (a == x && b == y))
  follows-unfollow x y = rw unfollow_outcome (elim (Bool-cases (follows d a b)) [
    | inl h ↦ rw h (λ e. elim (Bool-cases (a == x && b == y)) [
      | inl s ↦
          ground
            (arith, exists-deleted (is_follow x y) (is_follow a b) d.follows (λ f g. ground arith))
      | inr s ↦
          ground
            (arith, exists-kept (is_follow x y) (is_follow a b) d.follows (λ f g. ground arith))
    ])
    | inr h ↦ rw h (λ e. ground arith)
  ])

module _ (now new_id a b : ℕ) (d : FollowTables) where
  -- A follow is refused where there is one of the pair, and where a user is missing or the key is
  -- taken; else its row is the last of the table.
  pub follow_outcome : follow now new_id a b d ≡ (
      if follows d a b
      then (err already_following, d)
      else if is_permitted d new_id a b
      then (ok tt, record d { follows = insert (new_follow now new_id a b) d.follows })
      else (err integrity_error, d))
  unfolding follow save create_follow add
  follow_outcome = ground (arith, is_following_lem a b d)

  -- After a follow that succeeds the follower follows the other, and nobody else's follows differ.
  pub follows-follow :
      (x y : EntityId)
      → (follow now new_id a b d).0 ≡ ok tt
      → follows (follow now new_id a b d).1 x y ≡ (follows d x y || (a == x && b == y))
  follows-follow x y = rw follow_outcome (elim (Bool-cases (follows d a b)) [
    | inl h ↦ rw h (λ e. ground arith)
    | inr h ↦ rw h (elim (Bool-cases (is_permitted d new_id a b)) [
      | inl p ↦ rw p (λ e. exists-inserted (is_follow x y) (new_follow now new_id a b) d.follows)
      | inr p ↦ rw p (λ e. ground arith)
    ])
  ])

  -- An unfollow takes back a follow that succeeded: the tables are as they were.
  pub unfollow-follow :
      (follow now new_id a b d).0 ≡ ok tt → unfollow a b (follow now new_id a b d).1 ≡ (ok tt, d)
  unfollow-follow = rw follow_outcome (elim (Bool-cases (follows d a b)) [
    | inl h ↦ rw h (λ e. ground arith)
    | inr h ↦ rw h (elim (Bool-cases (is_permitted d new_id a b)) [
      | inl p ↦ rw p (λ e. ground (
        arith,
        unfollow_outcome a b (record d { follows = insert (new_follow now new_id a b) d.follows }),
        exists-inserted (is_follow a b) (new_follow now new_id a b) d.follows,
        delete_where-insert (is_follow a b) (new_follow now new_id a b) d.follows,
      ))
      | inr p ↦ rw p (λ e. ground arith)
    ])
  ])

module _ (libs : Libraries) (now new_id : ℕ) (input : FollowInput) (d : FollowTables) where
  -- The use case enters the unit of work of its endpoint again, so what it commits is a session
  -- without writes: whatever the endpoint answers, the database is as it was.
  pub endpoint-follow : (endpoint (follow_user_use_case libs now new_id input) d).1 ≡ d
  unfolding follow_user_use_case endpoint async_with committing
  endpoint-follow = ground arith

  -- The same of an unfollow.
  pub endpoint-unfollow : (endpoint (unfollow_user_use_case libs input) d).1 ≡ d
  unfolding unfollow_user_use_case endpoint async_with committing
  endpoint-unfollow = ground arith
