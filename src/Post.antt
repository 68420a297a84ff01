-- ===== src/Post.antt =====
-- Posts and what users do with them: src/fb/domain/post, src/fb/application/post and the
-- repositories of posts, likes, reactions, comments and shares.
pub mod Entities
pub mod Tables
pub mod PostRepository
pub mod LikeRepository
pub mod ReactionRepository
pub mod CommentRepository
pub mod ShareRepository
pub mod Posts
pub mod Likes
pub mod Reactions
pub mod Comments
pub mod Shares
pub mod Invariant
pub mod Outcomes
pub mod Counters
pub mod Endpoints
pub mod Lists
pub mod Tests
