-- ===== src/Post/Comments.antt =====
-- src/fb/application/post/create_comment.py and delete_comment.py
use facebook_clone.Prelude.{not, Option, none, some, ◌==◌}
use facebook_clone.Shared.Errors.{post_not_found, comment_not_found, comment_permission}
use facebook_clone.Shared.Effects.{Effect, pure, lift, raise_if, or_raise, ◌>>=◌, ◌>>◌}
use facebook_clone.Shared.EntityId.{EntityId, Text, Libraries, from_str}
use facebook_clone.UnitOfWork.{UnitOfWork, committing}
use facebook_clone.Post.Entities.{
  Datetime, Post, Comment, create_comment, increment_comment_count, decrement_comment_count,
}
use facebook_clone.Post.Tables.{PostTables}
use facebook_clone.Post.PostRepository
use facebook_clone.Post.CommentRepository

pub record CreateCommentInput : Type 0 where
  pub post_id : Text
  pub author_id : Text
  pub content : Text

pub record DeleteCommentInput : Type 0 where
  pub comment_id : Text
  pub user_id : Text

pub record CommentOutput : Type 0 where
  pub id : Text
  pub post_id : Text
  pub author_id : Text
  pub content : Text
  pub created_at : Option Datetime

abbrev pub comment_output : Libraries → Comment → CommentOutput
comment_output libs saved = record {
  id = libs.print_uuid saved.id;
  post_id = libs.print_uuid saved.post_id;
  author_id = libs.print_uuid saved.author_id;
  content = saved.content;
  created_at = saved.created_at;
}

-- The repository calls of `CreateCommentUseCase.execute` for parsed identifiers
unfoldable pub comment :
    Libraries → Datetime → EntityId → EntityId → EntityId → Text → Effect PostTables Comment
comment libs now new_id post_id author_id content = do
  found ← PostRepository.find_by_id post_id
  post ← or_raise found post_not_found
  new_comment ← lift (create_comment new_id post_id author_id content)
  saved_comment ← CommentRepository.save libs now new_comment
  PostRepository.update (increment_comment_count post)
  pure saved_comment

unfoldable pub comment_on_post :
    Libraries → Datetime → EntityId → CreateCommentInput → Effect PostTables CommentOutput
comment_on_post libs now new_id input = do
  post_id ← lift (from_str libs input.post_id)
  author_id ← lift (from_str libs input.author_id)
  saved_comment ← comment libs now new_id post_id author_id input.content
  pure (comment_output libs saved_comment)

-- `CreateCommentUseCase.execute`
unfoldable pub create_comment_use_case :
    Libraries
    → Datetime
    → EntityId
    → CreateCommentInput
    → Effect (UnitOfWork PostTables) CommentOutput
create_comment_use_case libs now new_id input = committing (comment_on_post libs now new_id input)

abbrev pub take_back_comment : Option Post → Effect PostTables Unit
take_back_comment none = pure tt
take_back_comment (some post) = do PostRepository.update (decrement_comment_count post); pure tt

-- The repository calls of `DeleteCommentUseCase.execute` for parsed identifiers
unfoldable pub uncomment : EntityId → EntityId → Effect PostTables Unit
uncomment comment_id user_id = do
  found ← CommentRepository.find_by_id comment_id
  comment ← or_raise found comment_not_found
  raise_if (not (comment.author_id == user_id)) comment_permission
  post ← PostRepository.find_by_id comment.post_id
  take_back_comment post
  CommentRepository.delete comment_id

unfoldable pub delete_comment : Libraries → DeleteCommentInput → Effect PostTables Unit
delete_comment libs input = do
  comment_id ← lift (from_str libs input.comment_id)
  user_id ← lift (from_str libs input.user_id)
  uncomment comment_id user_id

-- `DeleteCommentUseCase.execute`
unfoldable pub delete_comment_use_case :
    Libraries → DeleteCommentInput → Effect (UnitOfWork PostTables) Unit
delete_comment_use_case libs input = committing (delete_comment libs input)
