-- ===== src/Post/Lists.antt =====
-- The lists of posts, comments, reactions and shares: the queries of
-- src/fb/infrastructure/repositories, and src/fb/application/post/get_comments.py and get_post.py.
pub mod Pages
use facebook_clone.Prelude.{Option, ℕ, ◌+◌, Bool, ◌&&◌, List, length, ltb, map, none, some, ◌==◌}
use facebook_clone.Shared.Errors.{ok}
use facebook_clone.Shared.Effects.{Effect, pure, lift, gets, ◌>>=◌, ◌>>◌}
use facebook_clone.Shared.EntityId.{EntityId, Text, Libraries, from_str}
use facebook_clone.Shared.Table.{select, count, page, order_by_desc}
use facebook_clone.Post.Entities.{Datetime, Post, Comment, Reaction, ReactionType, Share, same_type}
use facebook_clone.Post.Tables.{PostTables}
use facebook_clone.Post.PostRepository
use facebook_clone.Post.CommentRepository
use facebook_clone.Post.ReactionRepository
use facebook_clone.Post.ShareRepository
use facebook_clone.Post.Posts.{PostOutput, post_output}
use facebook_clone.Post.Comments.{CommentOutput, comment_output}

-- The time of a row, which is never null
abbrev pub or_epoch : Option Datetime → Datetime
or_epoch none = 0
or_epoch (some t) = t

-- `SqlAlchemyPostRepository.find_by_author`
unfoldable pub find_by_author : EntityId → ℕ → ℕ → PostTables → List Post
find_by_author author_id limit offset d = page limit offset (
    order_by_desc (λ p. or_epoch p.created_at)
      (select (PostRepository.is_published_by author_id) d.posts))

-- `find_by_post` of comments, of reactions and of shares
unfoldable pub find_comments : EntityId → ℕ → ℕ → PostTables → List Comment
find_comments post_id limit offset d = page limit offset (
    order_by_desc (λ c. or_epoch c.created_at)
      (select (CommentRepository.is_of post_id) d.comments))

unfoldable pub find_reactions : EntityId → ℕ → ℕ → PostTables → List Reaction
find_reactions post_id limit offset d = page limit offset (
    order_by_desc (λ r. or_epoch r.created_at)
      (select (ReactionRepository.is_of post_id) d.reactions))

unfoldable pub find_shares : EntityId → ℕ → ℕ → PostTables → List Share
find_shares post_id limit offset d =
    page limit offset
      (order_by_desc (λ s. or_epoch s.created_at) (select (ShareRepository.is_of post_id) d.shares))

-- `count_by_type`, at one type; the dictionary of the code has no entry where this is 0.
unfoldable pub count_by_type : EntityId → PostTables → ReactionType → ℕ
count_by_type post_id d type =
    count (λ r. ReactionRepository.is_of post_id r && same_type r.reaction_type type) d.reactions

pub record CommentsListOutput : Type 0 where
  pub comments : List CommentOutput
  pub total_count : ℕ
  pub has_next_page : Bool

-- `GetCommentsUseCase.execute`
unfoldable pub get_comments : Libraries → Text → ℕ → ℕ → Effect PostTables CommentsListOutput
get_comments libs post_id limit offset = do
  post_id_entity ← lift (from_str libs post_id)
  comments ← gets (λ d. ok (find_comments post_id_entity limit offset d))
  total_count ← gets (λ d. ok (CommentRepository.count_by_post post_id_entity d))
  pure (record {
    comments = map (comment_output libs) comments;
    total_count = total_count;
    has_next_page = ltb (offset + length comments) total_count;
  })

-- `GetPostUseCase.execute_by_author`
unfoldable pub get_posts_by_author : Libraries → Text → ℕ → ℕ → Effect PostTables (List PostOutput)
get_posts_by_author libs author limit offset = do
  author_id ← lift (from_str libs author)
  posts ← gets (λ d. ok (find_by_author author_id limit offset d))
  pure (map (post_output libs) posts)
