-- ===== src/Post/Outcomes.antt =====
-- What each use case on posts answers and writes, on every branch.
pub mod Likes
pub mod Reactions
pub mod Comments
pub mod Shares
pub mod Posts
