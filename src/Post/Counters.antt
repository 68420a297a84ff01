-- ===== src/Post/Counters.antt =====
-- The use cases keep the tables of posts consistent: keys, references and counters.
pub mod Likes
pub mod Reactions
pub mod Comments
pub mod Posts
pub mod Shares
use facebook_clone.Prelude.{◌≡◌}
use facebook_clone.Shared.Errors.{Result, ok, err}
use facebook_clone.Post.Tables.{PostTables}
use facebook_clone.Post.Invariant.{IsConsistent}

-- The session is consistent after a call that returns; what a raise leaves is rolled back.
abbrev pub Kept : {A : Type 0} → Result A × PostTables → Type 0
Kept (ok _, d) = IsConsistent d
Kept (err _, d) = Unit
