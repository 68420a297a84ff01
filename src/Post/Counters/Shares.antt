-- ===== src/Post/Counters/Shares.antt =====
-- Shares: they are counted nowhere.
use facebook_clone.Prelude.{◌≡◌, none, ◌==◌, ==_symm, List, inl, inr, Bool-cases, Option-cases}
use facebook_clone.Shared.EntityId.{EntityId, Text}
use facebook_clone.Shared.Table.{find}
use facebook_clone.Shared.Table.Counting.{find-none, All-mono}
use facebook_clone.Shared.Table.Keys.{Unique, Unique-insert, Unique-delete_where}
use facebook_clone.Post.Entities.{Datetime, Share}
use facebook_clone.Post.Tables.{PostTables, has_user}
use facebook_clone.Post.PostRepository
use facebook_clone.Post.ShareRepository
use facebook_clone.Post.Invariant.{IsConsistent, IsCounted, same_share}
use facebook_clone.Post.Invariant.Queries.{count_shares-le}
use facebook_clone.Post.Shares.{share, unshare}
use facebook_clone.Post.Outcomes.Shares.{new_share, share_outcome, unshare_outcome}
use facebook_clone.Post.Counters.{Kept}

-- Shares are counted nowhere.
shared-IsConsistent :
    (d : PostTables) (shares : List Share)
    → IsConsistent d
    → Unique same_share shares
    → IsConsistent (record d { shares = shares })
shared-IsConsistent d shares h u = record {
  post_ids = h.post_ids;
  like_ids = h.like_ids;
  like_pairs = h.like_pairs;
  reaction_ids = h.reaction_ids;
  reaction_pairs = h.reaction_pairs;
  comment_ids = h.comment_ids;
  like_posts = h.like_posts;
  reaction_posts = h.reaction_posts;
  comment_posts = h.comment_posts;
  share_ids = u;
  counted =
      All-mono (IsCounted d) _ d.posts
        (λ p c. record { of_likes = c.of_likes; of_comments = c.of_comments }) h.counted;
}

-- A share keeps the tables consistent.
pub share-Kept :
    (now : Datetime) (new_id post_id user_id : EntityId) (content : Text) (d : PostTables)
    → IsConsistent d
    → find (ShareRepository.has_id new_id) d.shares ≡ none
    → Kept (share now new_id post_id user_id content d)
share-Kept now new_id post_id user_id content d h fresh =
    rw (share_outcome now new_id post_id user_id content d h fresh)
      (elim (Option-cases (find (PostRepository.has_id post_id) d.posts)) [
        | inl missing ↦ rw missing tt
        | inr (post, found) ↦ rw found (elim (Bool-cases (post.author_id == user_id)) [
          | inl own ↦ rw own tt
          | inr other ↦ rw other (elim (Bool-cases (has_user d user_id)) [
            | inl known ↦ rw known (
                shared-IsConsistent d _ h (
                  Unique-insert same_share (new_share now new_id post_id user_id content) d.shares
                    (λ x y. ==_symm y.id x.id)
                    (find-none (ShareRepository.has_id new_id) d.shares fresh) h.share_ids))
            | inr unknown ↦ rw unknown tt
          ])
        ])
      ])

-- The deletion of a share keeps the tables consistent.
pub unshare-Kept :
    (share_id user_id : EntityId) (d : PostTables)
    → IsConsistent d
    → Kept (unshare share_id user_id d)
unshare-Kept share_id user_id d h =
    rw (unshare_outcome share_id user_id d (count_shares-le h share_id 0))
      (elim (Option-cases (find (ShareRepository.has_id share_id) d.shares)) [
        | inl missing ↦ rw missing tt
        | inr (s, found) ↦ rw found (elim (Bool-cases (s.user_id == user_id)) [
          | inl own ↦ rw own (
              shared-IsConsistent d _ h (
                Unique-delete_where same_share (ShareRepository.has_id share_id) d.shares
                  h.share_ids))
          | inr other ↦ rw other tt
        ])
      ])
