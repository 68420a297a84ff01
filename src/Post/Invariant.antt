-- ===== src/Post/Invariant.antt =====
-- The invariant of the tables of posts.
pub mod Queries
pub mod Rows
pub mod Recount
use facebook_clone.Prelude.{true, ℕ, ◌+◌, ◌≡◌, Bool, ◌&&◌, ◌==◌, All}
use facebook_clone.Shared.EntityId.{EntityId}
use facebook_clone.Shared.Table.{count}
use facebook_clone.Shared.Table.Keys.{Unique}
use facebook_clone.Post.Entities.{Post, Like, Reaction, Comment, Share}
use facebook_clone.Post.Tables.{PostTables, has_post}
use facebook_clone.Post.LikeRepository
use facebook_clone.Post.ReactionRepository
use facebook_clone.Post.CommentRepository

-- What the tables hold on a post; likes and reactions share one counter.
pub record Counts (d : PostTables) (i : EntityId) (likes comments : ℕ) : Type 0 where
  pub of_likes :
      likes
      ≡ count (LikeRepository.is_of i) d.likes + count (ReactionRepository.is_of i) d.reactions
  pub of_comments : comments ≡ count (CommentRepository.is_of i) d.comments

-- The cached counters of a post are what the tables hold.
abbrev pub IsCounted : PostTables → Post → Type 0
IsCounted d p = Counts d p.id p.like_count p.comment_count

abbrev pub same_post : Post → Post → Bool
same_post a b = b.id == a.id

abbrev pub same_like : Like → Like → Bool
same_like a b = b.id == a.id

abbrev pub same_reaction : Reaction → Reaction → Bool
same_reaction a b = b.id == a.id

abbrev pub same_comment : Comment → Comment → Bool
same_comment a b = b.id == a.id

abbrev pub same_share : Share → Share → Bool
same_share a b = b.id == a.id

abbrev pub like_pair : Like → Like → Bool
like_pair a b = b.post_id == a.post_id && b.user_id == a.user_id

abbrev pub reaction_pair : Reaction → Reaction → Bool
reaction_pair a b = b.post_id == a.post_id && b.user_id == a.user_id

-- The keys are unique, a user likes a post at most once and has one reaction to it, what
-- they like, react to or comment on is there, and every counter is right.
pub record IsConsistent (d : PostTables) : Type 0 where
  pub post_ids : Unique same_post d.posts
  pub like_ids : Unique same_like d.likes
  pub like_pairs : Unique like_pair d.likes
  pub reaction_ids : Unique same_reaction d.reactions
  pub reaction_pairs : Unique reaction_pair d.reactions
  pub share_ids : Unique same_share d.shares
  pub comment_ids : Unique same_comment d.comments
  pub like_posts : All (λ l. has_post d l.post_id ≡ true) d.likes
  pub reaction_posts : All (λ r. has_post d r.post_id ≡ true) d.reactions
  pub comment_posts : All (λ c. has_post d c.post_id ≡ true) d.comments
  pub counted : All (IsCounted d) d.posts
