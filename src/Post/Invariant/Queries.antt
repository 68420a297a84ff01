-- ===== src/Post/Invariant/Queries.antt =====
-- In consistent tables the queries of the repositories return the one match, and do not raise.
use facebook_clone.Prelude.{◌≤◌, ◌≡◌, arith}
use facebook_clone.Shared.Errors.{ok}
use facebook_clone.Shared.EntityId.{EntityId}
use facebook_clone.Shared.Table.{count, find}
use facebook_clone.Shared.Table.Counting.{scalar_one_or_none-select}
use facebook_clone.Shared.Table.Keys.{count-le_of_Unique}
use facebook_clone.Post.Tables.{PostTables}
use facebook_clone.Post.PostRepository
use facebook_clone.Post.LikeRepository
use facebook_clone.Post.ReactionRepository
use facebook_clone.Post.CommentRepository
use facebook_clone.Post.ShareRepository
use facebook_clone.Post.Invariant.{
  IsConsistent, same_post, same_like, like_pair, same_reaction, reaction_pair, same_comment,
  same_share,
}

module _ {d : PostTables} (h : IsConsistent d) (i u : EntityId) where
  pub count_posts-le : count (PostRepository.has_id i) d.posts ≤ 1
  count_posts-le =
      count-le_of_Unique same_post (PostRepository.has_id i) d.posts (λ x y p q. ground arith)
        h.post_ids

  pub count_likes-le : count (LikeRepository.has_id i) d.likes ≤ 1
  count_likes-le =
      count-le_of_Unique same_like (LikeRepository.has_id i) d.likes (λ x y p q. ground arith)
        h.like_ids

  pub count_like_pairs-le : count (LikeRepository.is_by i u) d.likes ≤ 1
  count_like_pairs-le =
      count-le_of_Unique like_pair (LikeRepository.is_by i u) d.likes (λ x y p q. ground arith)
        h.like_pairs

  pub count_reactions-le : count (ReactionRepository.has_id i) d.reactions ≤ 1
  count_reactions-le =
      count-le_of_Unique same_reaction (ReactionRepository.has_id i) d.reactions
        (λ x y p q. ground arith) h.reaction_ids

  pub count_reaction_pairs-le : count (ReactionRepository.is_by i u) d.reactions ≤ 1
  count_reaction_pairs-le =
      count-le_of_Unique reaction_pair (ReactionRepository.is_by i u) d.reactions
        (λ x y p q. ground arith) h.reaction_pairs

  pub count_comments-le : count (CommentRepository.has_id i) d.comments ≤ 1
  count_comments-le =
      count-le_of_Unique same_comment (CommentRepository.has_id i) d.comments
        (λ x y p q. ground arith) h.comment_ids

  pub count_shares-le : count (ShareRepository.has_id i) d.shares ≤ 1
  count_shares-le =
      count-le_of_Unique same_share (ShareRepository.has_id i) d.shares (λ x y p q. ground arith)
        h.share_ids

  pub find_post_lem :
      PostRepository.find_by_id i d ≡ (ok (find (PostRepository.has_id i) d.posts), d)
  unfolding PostRepository.find_by_id
  find_post_lem = rw (scalar_one_or_none-select (PostRepository.has_id i) d.posts count_posts-le)

  pub find_like_lem :
      LikeRepository.find_by_post_and_user i u d ≡ (ok (find (LikeRepository.is_by i u) d.likes), d)
  unfolding LikeRepository.find_by_post_and_user
  find_like_lem =
      rw (scalar_one_or_none-select (LikeRepository.is_by i u) d.likes count_like_pairs-le)

  pub find_reaction_lem :
      ReactionRepository.find_by_post_and_user i u d
      ≡ (ok (find (ReactionRepository.is_by i u) d.reactions), d)
  unfolding ReactionRepository.find_by_post_and_user
  find_reaction_lem =
      rw (
        scalar_one_or_none-select (ReactionRepository.is_by i u) d.reactions
          count_reaction_pairs-le)

  pub find_comment_lem :
      CommentRepository.find_by_id i d ≡ (ok (find (CommentRepository.has_id i) d.comments), d)
  unfolding CommentRepository.find_by_id
  find_comment_lem =
      rw (scalar_one_or_none-select (CommentRepository.has_id i) d.comments count_comments-le)
