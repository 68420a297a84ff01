-- ===== src/Follow/Tests.antt =====
-- The theorems on follows at a small database: user 1 follows user 2.
use facebook_clone.Prelude.{◌≡◌, take, refl, some, [], ◌∷◌}
use facebook_clone.Shared.Errors.{ok}
use facebook_clone.Shared.Table.{scalar_one_or_none, count, exists, select}
use facebook_clone.Follow.Repository.{
  is_following, save, delete, create_follow, Follow, FollowTables,
}
use facebook_clone.Follow.Following.{follow, unfollow}
use facebook_clone.Follow.Outcomes.{unfollow-follow}
use facebook_clone.Follow.Invariant.{IsSound}

abbrev first : Follow
first = record { id = 70; follower_id = 1; following_id = 2; created_at = some 5 }

abbrev tables : FollowTables
tables = record { users = 1 ∷ 2 ∷ 3 ∷ []; follows = first ∷ [] }

tables-IsSound : IsSound tables
unfolding count exists
tables-IsSound = ((refl, tt), (refl, tt), ((refl, refl, refl), tt))

followed : (follow 8 71 1 3 tables).0 ≡ ok tt
unfolding follow is_following scalar_one_or_none take select save exists create_follow
followed = refl

unfollowed : (unfollow 1 2 tables).0 ≡ ok tt
unfolding unfollow is_following scalar_one_or_none take select delete
unfollowed = refl

unfollow-follow_example : unfollow 1 3 (follow 8 71 1 3 tables).1 ≡ (ok tt, tables)
unfollow-follow_example = unfollow-follow 8 71 1 3 tables followed
