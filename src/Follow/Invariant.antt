-- ===== src/Follow/Invariant.antt =====
-- The constraints of the table `follows`, kept by a follow and an unfollow.
use facebook_clone.Prelude.{ℕ, Bool, true, false, ◌≡◌, arith, ◌&&◌, ◌==◌, Bool-cases, inl, inr, All}
use facebook_clone.Shared.Table.Counting.{All-insert, All-delete_where, count-of_not_exists}
use facebook_clone.Shared.Table.Keys.{Unique, Unique-insert, Unique-delete_where}
use facebook_clone.Follow.Repository.{Follow, FollowTables, has_user, has_id, is_follow}
use facebook_clone.Follow.Following.{follow, unfollow}
use facebook_clone.Follow.Outcomes.{
  follows, new_follow, is_permitted, follow_outcome, unfollow_outcome,
}

abbrev same_id : Follow → Follow → Bool
same_id a b = b.id == a.id

abbrev same_pair : Follow → Follow → Bool
same_pair a b = b.follower_id == a.follower_id && b.following_id == a.following_id

-- The users of a row are there, and they are not the same user.
abbrev pub IsRow : FollowTables → Follow → Type 0
IsRow d f =
    (has_user d f.follower_id ≡ true)
    × (has_user d f.following_id ≡ true)
    × ((f.follower_id == f.following_id) ≡ false)

abbrev pub IsSound : FollowTables → Type 0
IsSound d = Unique same_id d.follows × Unique same_pair d.follows × All (IsRow d) d.follows

-- A follow of another user keeps sound tables sound, on every branch: the keys unique, the users
-- present and nobody following themselves.
pub follow-IsSound :
    (now new_id a b : ℕ) (d : FollowTables)
    → (a == b) ≡ false
    → IsSound d
    → IsSound (follow now new_id a b d).1
follow-IsSound now new_id a b d n s =
    rw (follow_outcome now new_id a b d) (elim (Bool-cases (follows d a b)) [
      | inl h ↦ rw h s
      | inr h ↦ rw h (elim (Bool-cases (is_permitted d new_id a b)) [
        | inl p ↦ rw p (
            let f = new_follow now new_id a b in
            (
              Unique-insert same_id f d.follows (λ x y. ground arith)
                  (count-of_not_exists (has_id new_id) d.follows (ground arith)) s.0,
              Unique-insert same_pair f d.follows (λ x y. ground arith)
                  (count-of_not_exists (is_follow a b) d.follows h) s.1,
              All-insert (IsRow d) f d.follows (ground arith, ground arith, n) s.2,
            ))
        | inr p ↦ rw p s
      ])
    ])

-- An unfollow keeps sound tables sound, on every branch.
pub unfollow-IsSound : (a b : ℕ) (d : FollowTables) → IsSound d → IsSound (unfollow a b d).1
unfollow-IsSound a b d s = rw (unfollow_outcome a b d) (elim (Bool-cases (follows d a b)) [
  | inl h ↦ rw h (
    Unique-delete_where same_id (is_follow a b) d.follows s.0,
    Unique-delete_where same_pair (is_follow a b) d.follows s.1,
    All-delete_where (IsRow d) (is_follow a b) d.follows s.2,
  )
  | inr h ↦ rw h s
])
