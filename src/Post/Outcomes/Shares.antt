-- ===== src/Post/Outcomes/Shares.antt =====
-- `SharePostUseCase` and `DeleteShareUseCase` on every branch.
use facebook_clone.Prelude.{
  ◌≡◌, none, some, arith, ◌==◌, ◌≤◌, inl, inr, Option-cases, if◌then◌else◌,
}
use facebook_clone.Shared.Errors.{
  ok, err, integrity_error, post_not_found, cannot_share_own_post, share_not_found,
  share_permission,
}
use facebook_clone.Shared.EntityId.{EntityId, Text}
use facebook_clone.Shared.Table.{find, count, delete_where, insert}
use facebook_clone.Shared.Table.Counting.{exists_of_find, scalar_one_or_none-select}
use facebook_clone.Post.Entities.{Datetime, Share, create_share}
use facebook_clone.Post.Tables.{PostTables, has_user}
use facebook_clone.Post.PostRepository
use facebook_clone.Post.ShareRepository
use facebook_clone.Post.Shares.{share, unshare}
use facebook_clone.Post.Invariant.{IsConsistent}
use facebook_clone.Post.Invariant.Queries.{find_post_lem}

-- The row of a new share
abbrev pub new_share : Datetime → EntityId → EntityId → EntityId → Text → Share
new_share now new_id post_id user_id content = record {
  id = new_id;
  post_id = post_id;
  user_id = user_id;
  content = content;
  created_at = some now;
}

-- On consistent tables a share with a new identifier is refused if the post is missing, if it is
-- the user's own, or if there is no such user; otherwise it is stored, also a second one of the
-- same post.
pub share_outcome :
    (now : Datetime) (new_id post_id user_id : EntityId) (content : Text) (d : PostTables)
    → IsConsistent d
    → find (ShareRepository.has_id new_id) d.shares ≡ none
    → share now new_id post_id user_id content d
      ≡ elim (find (PostRepository.has_id post_id) d.posts) [
        | none ↦ (err post_not_found, d)
        | some post ↦
            if post.author_id == user_id
            then (err cannot_share_own_post, d)
            else if has_user d user_id
            then (
              ok (new_share now new_id post_id user_id content),
              record d { shares = insert (new_share now new_id post_id user_id content) d.shares },
            )
            else (err integrity_error, d)
      ]
unfolding share ShareRepository.save create_share
share_outcome now new_id post_id user_id content d h fresh =
    elim (Option-cases (find (PostRepository.has_id post_id) d.posts)) [
      | inl missing ↦ ground (arith, find_post_lem h post_id user_id)
      | inr (post, found) ↦ ground (
        arith,
        find_post_lem h post_id user_id,
        exists_of_find (PostRepository.has_id post_id) d.posts found,
      )
    ]

-- Only the one who shared deletes a share.
pub unshare_outcome :
    (share_id user_id : EntityId) (d : PostTables)
    → count (ShareRepository.has_id share_id) d.shares ≤ 1
    → unshare share_id user_id d ≡ elim (find (ShareRepository.has_id share_id) d.shares) [
      | none ↦ (err share_not_found, d)
      | some s ↦
          if s.user_id == user_id
          then (
            ok tt,
            record d { shares = delete_where (ShareRepository.has_id share_id) d.shares },
          )
          else (err share_permission, d)
    ]
unfolding unshare ShareRepository.delete ShareRepository.find_by_id
unshare_outcome share_id user_id d u =
    ground (arith, scalar_one_or_none-select (ShareRepository.has_id share_id) d.shares u)
