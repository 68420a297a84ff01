-- ===== src/Follow/Repository.antt =====
-- src/fb/domain/follow/entities.py, src/fb/infrastructure/database/models/follow.py and
-- src/fb/infrastructure/repositories/follow_repo.py
use facebook_clone.Prelude.{ℕ, Bool, ◌&&◌, not, Option, none, some, List, ◌==◌, map, is_some, take}
use facebook_clone.Shared.Errors.{Result, ok, err}
use facebook_clone.Shared.Effects.{Effect, gets, modify}
use facebook_clone.Shared.EntityId.{EntityId}
use facebook_clone.Shared.Table.{
  select, count, exists, delete_where, scalar_one_or_none, page, add, stored, order_by_desc,
}

-- A follow: the entity, and the row
pub record Follow : Type 0 where
  pub id : EntityId
  pub follower_id : EntityId
  pub following_id : EntityId
  pub created_at : Option ℕ

-- `Follow.create`
unfoldable pub create_follow : EntityId → EntityId → EntityId → Follow
create_follow new_id follower_id following_id = record {
  id = new_id;
  follower_id = follower_id;
  following_id = following_id;
  created_at = none;
}

pub record FollowTables : Type 0 where
  -- the primary keys of the table `users`
  pub users : List EntityId
  pub follows : List Follow

abbrev pub has_user : FollowTables → EntityId → Bool
has_user d i = exists (λ u. u == i) d.users

abbrev pub has_id : EntityId → Follow → Bool
has_id i f = f.id == i

abbrev pub is_follow : EntityId → EntityId → Follow → Bool
is_follow follower_id following_id f =
    f.follower_id == follower_id && f.following_id == following_id

-- The primary key, the unique constraint on the pair, and the foreign keys
unfoldable pub save : ℕ → Follow → Effect FollowTables Follow
unfolding add
save now follow d =
    let row = record follow { created_at = some now } in
    stored (λ rows t. record t { follows = rows })
      (add
        (has_user d row.follower_id
          && has_user d row.following_id
          && not (exists (has_id row.id) d.follows)
          && not (exists (is_follow row.follower_id row.following_id) d.follows))
        row d.follows)
      d

unfoldable pub delete : EntityId → EntityId → Effect FollowTables Unit
delete follower_id following_id =
    modify (λ d. record d { follows = delete_where (is_follow follower_id following_id) d.follows })

abbrev pub is_some_row : Result (Option Follow) → Result Bool
is_some_row (ok o) = ok (is_some o)
is_some_row (err e) = err e

unfoldable pub is_following : EntityId → EntityId → Effect FollowTables Bool
is_following follower_id following_id = gets (λ d.
    is_some_row
      (scalar_one_or_none (take 1 (select (is_follow follower_id following_id) d.follows))))

-- The time of a row, which is never null
abbrev pub time_of : Follow → ℕ
time_of f = elim f.created_at [ none ↦ 0 | some t ↦ t ]

abbrev pub is_by : EntityId → Follow → Bool
is_by user_id f = f.follower_id == user_id

abbrev pub is_of : EntityId → Follow → Bool
is_of user_id f = f.following_id == user_id

unfoldable pub get_following : EntityId → ℕ → ℕ → FollowTables → List EntityId
get_following user_id limit offset d =
    map (λ (f : Follow). f.following_id)
      (page limit offset (order_by_desc time_of (select (is_by user_id) d.follows)))

unfoldable pub get_followers : EntityId → ℕ → ℕ → FollowTables → List EntityId
get_followers user_id limit offset d =
    map (λ (f : Follow). f.follower_id)
      (page limit offset (order_by_desc time_of (select (is_of user_id) d.follows)))

unfoldable pub get_following_count : EntityId → FollowTables → ℕ
get_following_count user_id d = count (is_by user_id) d.follows

unfoldable pub get_followers_count : EntityId → FollowTables → ℕ
get_followers_count user_id d = count (is_of user_id) d.follows
