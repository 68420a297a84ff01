-- ===== src/Post/Posts.antt =====
-- src/fb/application/post/create_post.py, update_post.py, delete_post.py and get_post.py
use facebook_clone.Prelude.{ℕ, Bool, not, Option, none, some, List, [], ◌==◌}
use facebook_clone.Shared.Errors.{post_not_found, post_permission}
use facebook_clone.Shared.Effects.{Effect, pure, lift, raise_if, or_raise, ◌>>=◌, ◌>>◌}
use facebook_clone.Shared.EntityId.{EntityId, Text, Libraries, from_str}
use facebook_clone.UnitOfWork.{UnitOfWork, async_with, committing, rolling_back}
use facebook_clone.Post.Entities.{
  Datetime, Post, post_content, create_post, update_content, unpublish,
}
use facebook_clone.Post.Tables.{PostTables}
use facebook_clone.Post.PostRepository

pub record CreatePostInput : Type 0 where
  pub author_id : Text
  pub content : Text
  pub media_urls : Option (List Text)

pub record UpdatePostInput : Type 0 where
  pub post_id : Text
  pub user_id : Text
  pub content : Option Text

pub record DeletePostInput : Type 0 where
  pub post_id : Text
  pub user_id : Text

pub record PostOutput : Type 0 where
  pub id : Text
  pub author_id : Text
  pub content : Text
  pub media_urls : List Text
  pub like_count : ℕ
  pub comment_count : ℕ
  pub is_published : Bool
  pub created_at : Option Datetime

abbrev pub post_output : Libraries → Post → PostOutput
post_output libs post = record {
  id = libs.print_uuid post.id;
  author_id = libs.print_uuid post.author_id;
  content = post.content;
  media_urls = post.media_urls;
  like_count = post.like_count;
  comment_count = post.comment_count;
  is_published = post.is_published;
  created_at = post.created_at;
}

-- `input_data.media_urls or []`
abbrev pub or_empty : Option (List Text) → List Text
or_empty none = []
or_empty (some urls) = urls

-- The calls inside the `try` of `CreatePostUseCase.execute`, the commit aside
unfoldable pub publish :
    Libraries → Datetime → EntityId → CreatePostInput → Effect PostTables PostOutput
publish libs now new_id input = do
  lift (post_content input.content)
  author_id ← lift (from_str libs input.author_id)
  saved_post ←
      PostRepository.save now
        (create_post new_id author_id input.content (or_empty input.media_urls))
  pure (post_output libs saved_post)

-- `CreatePostUseCase.execute`
unfoldable pub create_post_use_case :
    Libraries → Datetime → EntityId → CreatePostInput → Effect (UnitOfWork PostTables) PostOutput
create_post_use_case libs now new_id input =
    async_with (rolling_back (committing (publish libs now new_id input)))

-- `updated_post`: the new content is validated if there is one.
abbrev pub with_content : Post → Option Text → Effect PostTables Post
with_content post none = pure post
with_content post (some content) = do
  lift (post_content content)
  pure (update_content content post)

-- The repository calls of `UpdatePostUseCase.execute` for parsed identifiers
unfoldable pub edit : EntityId → EntityId → Option Text → Effect PostTables Post
edit post_id user_id content = do
  found ← PostRepository.find_by_id post_id
  post ← or_raise found post_not_found
  raise_if (not (post.author_id == user_id)) post_permission
  updated_post ← with_content post content
  PostRepository.update updated_post

unfoldable pub update_post : Libraries → UpdatePostInput → Effect PostTables PostOutput
update_post libs input = do
  post_id ← lift (from_str libs input.post_id)
  user_id ← lift (from_str libs input.user_id)
  saved_post ← edit post_id user_id input.content
  pure (post_output libs saved_post)

-- `UpdatePostUseCase.execute`
unfoldable pub update_post_use_case :
    Libraries → UpdatePostInput → Effect (UnitOfWork PostTables) PostOutput
update_post_use_case libs input = async_with (rolling_back (committing (update_post libs input)))

-- The repository calls of `DeletePostUseCase.execute` for parsed identifiers
unfoldable pub remove : EntityId → EntityId → Effect PostTables Unit
remove post_id user_id = do
  found ← PostRepository.find_by_id post_id
  post ← or_raise found post_not_found
  raise_if (not (post.author_id == user_id)) post_permission
  PostRepository.update (unpublish post)
  pure tt

unfoldable pub delete_post : Libraries → DeletePostInput → Effect PostTables Unit
delete_post libs input = do
  post_id ← lift (from_str libs input.post_id)
  user_id ← lift (from_str libs input.user_id)
  remove post_id user_id

-- `DeletePostUseCase.execute`
unfoldable pub delete_post_use_case :
    Libraries → DeletePostInput → Effect (UnitOfWork PostTables) Unit
delete_post_use_case libs input = async_with (rolling_back (committing (delete_post libs input)))

-- `GetPostUseCase.execute`
unfoldable pub get_post : Libraries → Text → Effect PostTables PostOutput
get_post libs post_id = do
  id ← lift (from_str libs post_id)
  found ← PostRepository.find_by_id id
  post ← or_raise found post_not_found
  pure (post_output libs post)
