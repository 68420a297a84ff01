-- ===== src/Post/Invariant/Recount.antt =====
-- The counters after a post is written together with what is counted.
use facebook_clone.Prelude.{◌≡◌, sym, false, List, arith, All, ◌==◌, eq_of_==}
use mathlib.Core.Path.{subst}
use facebook_clone.Shared.EntityId.{EntityId}
use facebook_clone.Shared.Table.{count}
use facebook_clone.Shared.Table.Counting.{All-mono, All-update_where}
use facebook_clone.Post.Entities.{Post}
use facebook_clone.Post.Tables.{PostTables}
use facebook_clone.Post.PostRepository.{has_id, assign}
use facebook_clone.Post.LikeRepository
use facebook_clone.Post.ReactionRepository
use facebook_clone.Post.CommentRepository
use facebook_clone.Post.Invariant.{Counts, IsCounted}
use facebook_clone.Post.Invariant.Rows.{with_post}

-- Two states hold as much on a post.
pub record Agree (d d' : PostTables) (j : EntityId) : Type 0 where
  pub likes : count (LikeRepository.is_of j) d'.likes ≡ count (LikeRepository.is_of j) d.likes
  pub reactions :
      count (ReactionRepository.is_of j) d'.reactions
      ≡ count (ReactionRepository.is_of j) d.reactions
  pub comments :
      count (CommentRepository.is_of j) d'.comments ≡ count (CommentRepository.is_of j) d.comments

-- If the post that is written has the right counters, and nothing is changed on the others, then
-- all counters are right.
pub recount :
    (d d' : PostTables) (i : EntityId) (post : Post) (posts : List Post)
    → Counts d' i post.like_count post.comment_count
    → ((j : EntityId) → (j == i) ≡ false → Agree d d' j)
    → All (IsCounted d) posts
    → All (IsCounted d') (with_post i post posts)
recount d d' i post posts written others =
    All-update_where (IsCounted d) (IsCounted d') (has_id i) (assign post) posts
      (λ x c e.
        subst (λ j. Counts d' j post.like_count post.comment_count) (sym (eq_of_== x.id i e))
          written)
      (λ x c e. let a = others x.id e in ground arith)

-- If what is counted is left as it is, then so are the counters.
pub recount_same :
    (d d' : PostTables) (posts : List Post)
    → ((j : EntityId) → Agree d d' j)
    → All (IsCounted d) posts
    → All (IsCounted d') posts
recount_same d d' posts same =
    All-mono (IsCounted d) (IsCounted d') posts (λ x c. let a = same x.id in ground arith)
