-- ===== src/Post/Likes.antt =====
-- src/fb/application/post/like_post.py and unlike_post.py
use facebook_clone.Prelude.{Option, none, some, is_some}
use facebook_clone.Shared.Errors.{post_not_found, already_liked, not_liked}
use facebook_clone.Shared.Effects.{Effect, pure, lift, raise_if, or_raise, ◌>>=◌, ◌>>◌}
use facebook_clone.Shared.EntityId.{EntityId, Text, Libraries, from_str}
use facebook_clone.UnitOfWork.{UnitOfWork, committing}
use facebook_clone.Post.Entities.{
  Datetime, Post, Like, create_like, increment_like_count, decrement_like_count,
}
use facebook_clone.Post.Tables.{PostTables}
use facebook_clone.Post.PostRepository
use facebook_clone.Post.LikeRepository

pub record LikePostInput : Type 0 where
  pub post_id : Text
  pub user_id : Text

pub record LikeOutput : Type 0 where
  pub id : Text
  pub post_id : Text
  pub user_id : Text

abbrev pub like_output : Libraries → Like → LikeOutput
like_output libs saved = record {
  id = libs.print_uuid saved.id;
  post_id = libs.print_uuid saved.post_id;
  user_id = libs.print_uuid saved.user_id;
}

-- The repository calls of `LikePostUseCase.execute` for parsed identifiers
unfoldable pub like : Libraries → Datetime → EntityId → EntityId → EntityId → Effect PostTables Like
like libs now new_id post_id user_id = do
  found ← PostRepository.find_by_id post_id
  post ← or_raise found post_not_found
  existing_like ← LikeRepository.find_by_post_and_user post_id user_id
  raise_if (is_some existing_like) already_liked
  saved_like ← LikeRepository.save libs now (create_like new_id post_id user_id)
  PostRepository.update (increment_like_count post)
  pure saved_like

unfoldable pub like_post :
    Libraries → Datetime → EntityId → LikePostInput → Effect PostTables LikeOutput
like_post libs now new_id input = do
  post_id ← lift (from_str libs input.post_id)
  user_id ← lift (from_str libs input.user_id)
  saved_like ← like libs now new_id post_id user_id
  pure (like_output libs saved_like)

-- `LikePostUseCase.execute`
unfoldable pub like_post_use_case :
    Libraries → Datetime → EntityId → LikePostInput → Effect (UnitOfWork PostTables) LikeOutput
like_post_use_case libs now new_id input = committing (like_post libs now new_id input)

-- `if post:` of the use cases that take a count back
abbrev pub take_back_like : Option Post → Effect PostTables Unit
take_back_like none = pure tt
take_back_like (some post) = do PostRepository.update (decrement_like_count post); pure tt

-- The repository calls of `UnlikePostUseCase.execute` for parsed identifiers
unfoldable pub unlike : EntityId → EntityId → Effect PostTables Unit
unlike post_id user_id = do
  found ← LikeRepository.find_by_post_and_user post_id user_id
  like ← or_raise found not_liked
  post ← PostRepository.find_by_id post_id
  take_back_like post
  LikeRepository.delete like.id

unfoldable pub unlike_post : Libraries → LikePostInput → Effect PostTables Unit
unlike_post libs input = do
  post_id ← lift (from_str libs input.post_id)
  user_id ← lift (from_str libs input.user_id)
  unlike post_id user_id

-- `UnlikePostUseCase.execute`
unfoldable pub unlike_post_use_case :
    Libraries → LikePostInput → Effect (UnitOfWork PostTables) Unit
unlike_post_use_case libs input = committing (unlike_post libs input)
