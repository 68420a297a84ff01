-- ===== src/Post/Endpoints.antt =====
-- The endpoints of src/fb/presentation/rest/v1/posts.py and
-- src/fb/presentation/graphql/mutations/interaction.py that write posts and what users do with
-- them.
pub mod Consistency
use facebook_clone.Prelude.{◌≡◌, none}
use facebook_clone.Shared.EntityId.{EntityId, Libraries}
use facebook_clone.Shared.Table.{find}
use facebook_clone.UnitOfWork.{endpoint}
use facebook_clone.Post.Entities.{Datetime}
use facebook_clone.Post.Tables.{PostTables}
use facebook_clone.Post.PostRepository
use facebook_clone.Post.LikeRepository
use facebook_clone.Post.ReactionRepository
use facebook_clone.Post.CommentRepository
use facebook_clone.Post.ShareRepository
use facebook_clone.Post.Posts.{
  CreatePostInput, UpdatePostInput, DeletePostInput, create_post_use_case, update_post_use_case,
  delete_post_use_case,
}
use facebook_clone.Post.Likes.{LikePostInput, like_post_use_case, unlike_post_use_case}
use facebook_clone.Post.Reactions.{
  ReactToPostInput, RemoveReactionInput, react_to_post_use_case, remove_reaction_use_case,
}
use facebook_clone.Post.Comments.{
  CreateCommentInput, DeleteCommentInput, create_comment_use_case, delete_comment_use_case,
}
use facebook_clone.Post.Shares.{
  SharePostInput, DeleteShareInput, share_post_use_case, delete_share_use_case,
}

-- A request, with the time and the identifier that it is served at.
pub data Request : Type 0 where
  create_post : Datetime → EntityId → CreatePostInput → Request
  update_post : UpdatePostInput → Request
  delete_post : DeletePostInput → Request
  like_post : Datetime → EntityId → LikePostInput → Request
  unlike_post : LikePostInput → Request
  add_reaction : Datetime → EntityId → ReactToPostInput → Request
  remove_reaction : RemoveReactionInput → Request
  create_comment : Datetime → EntityId → CreateCommentInput → Request
  delete_comment : DeleteCommentInput → Request
  share_post : Datetime → EntityId → SharePostInput → Request
  delete_share : DeleteShareInput → Request

module _ (libs : Libraries) where
  -- The committed rows after a request is served, whatever the response.
  unfoldable pub serve : Request → PostTables → PostTables
  serve (create_post now new_id input) d =
      (endpoint (create_post_use_case libs now new_id input) d).1
  serve (update_post input) d = (endpoint (update_post_use_case libs input) d).1
  serve (delete_post input) d = (endpoint (delete_post_use_case libs input) d).1
  serve (like_post now new_id input) d = (endpoint (like_post_use_case libs now new_id input) d).1
  serve (unlike_post input) d = (endpoint (unlike_post_use_case libs input) d).1
  serve (add_reaction now new_id input) d =
      (endpoint (react_to_post_use_case libs now new_id input) d).1
  serve (remove_reaction input) d = (endpoint (remove_reaction_use_case libs input) d).1
  serve (create_comment now new_id input) d =
      (endpoint (create_comment_use_case libs now new_id input) d).1
  serve (delete_comment input) d = (endpoint (delete_comment_use_case libs input) d).1
  serve (share_post now new_id input) d = (endpoint (share_post_use_case libs now new_id input) d).1
  serve (delete_share input) d = (endpoint (delete_share_use_case libs input) d).1

  -- The identifier that a request is handed is new in its table: `uuid4` does not repeat.
  abbrev pub IsNew : Request → PostTables → Type 0
  IsNew (create_post now new_id input) d = find (PostRepository.has_id new_id) d.posts ≡ none
  IsNew (like_post now new_id input) d = find (LikeRepository.has_id new_id) d.likes ≡ none
  IsNew (add_reaction now new_id input) d =
      find (ReactionRepository.has_id new_id) d.reactions ≡ none
  IsNew (create_comment now new_id input) d =
      find (CommentRepository.has_id new_id) d.comments ≡ none
  IsNew (share_post now new_id input) d = find (ShareRepository.has_id new_id) d.shares ≡ none
  IsNew _ d = Unit

  -- The states that requests lead to, one after the other.
  pub data Served (d : PostTables) : PostTables → Type 0 where
    here : Served d d
    next : {e f : PostTables} → Served d e → (r : Request) → IsNew r e → f ≡ serve r e → Served d f
