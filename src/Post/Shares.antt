-- ===== src/Post/Shares.antt =====
-- src/fb/application/post/share_post.py and delete_share.py
use facebook_clone.Prelude.{not, Option, ◌==◌}
use facebook_clone.Shared.Errors.{
  post_not_found, cannot_share_own_post, share_not_found, share_permission,
}
use facebook_clone.Shared.Effects.{Effect, pure, lift, raise_if, or_raise, ◌>>=◌, ◌>>◌}
use facebook_clone.Shared.EntityId.{EntityId, Text, Libraries, from_str}
use facebook_clone.UnitOfWork.{UnitOfWork, committing}
use facebook_clone.Post.Entities.{Datetime, Share, create_share}
use facebook_clone.Post.Tables.{PostTables}
use facebook_clone.Post.PostRepository
use facebook_clone.Post.ShareRepository

pub record SharePostInput : Type 0 where
  pub post_id : Text
  pub user_id : Text
  pub content : Text

pub record DeleteShareInput : Type 0 where
  pub share_id : Text
  pub user_id : Text

pub record ShareOutput : Type 0 where
  pub id : Text
  pub post_id : Text
  pub user_id : Text
  pub content : Text
  pub created_at : Option Datetime

abbrev pub share_output : Libraries → Share → ShareOutput
share_output libs saved = record {
  id = libs.print_uuid saved.id;
  post_id = libs.print_uuid saved.post_id;
  user_id = libs.print_uuid saved.user_id;
  content = saved.content;
  created_at = saved.created_at;
}

-- The repository calls of `SharePostUseCase.execute` for parsed identifiers
unfoldable pub share : Datetime → EntityId → EntityId → EntityId → Text → Effect PostTables Share
share now new_id post_id user_id content = do
  found ← PostRepository.find_by_id post_id
  post ← or_raise found post_not_found
  raise_if (post.author_id == user_id) cannot_share_own_post
  ShareRepository.save now (create_share new_id post_id user_id content)

unfoldable pub share_post :
    Libraries → Datetime → EntityId → SharePostInput → Effect PostTables ShareOutput
share_post libs now new_id input = do
  post_id ← lift (from_str libs input.post_id)
  user_id ← lift (from_str libs input.user_id)
  saved ← share now new_id post_id user_id input.content
  pure (share_output libs saved)

-- `SharePostUseCase.execute`
unfoldable pub share_post_use_case :
    Libraries → Datetime → EntityId → SharePostInput → Effect (UnitOfWork PostTables) ShareOutput
share_post_use_case libs now new_id input = committing (share_post libs now new_id input)

-- The repository calls of `DeleteShareUseCase.execute` for parsed identifiers
unfoldable pub unshare : EntityId → EntityId → Effect PostTables Unit
unshare share_id user_id = do
  found ← ShareRepository.find_by_id share_id
  share ← or_raise found share_not_found
  raise_if (not (share.user_id == user_id)) share_permission
  ShareRepository.delete share_id

unfoldable pub delete_share : Libraries → DeleteShareInput → Effect PostTables Unit
delete_share libs input = do
  share_id ← lift (from_str libs input.share_id)
  user_id ← lift (from_str libs input.user_id)
  unshare share_id user_id

-- `DeleteShareUseCase.execute`
unfoldable pub delete_share_use_case :
    Libraries → DeleteShareInput → Effect (UnitOfWork PostTables) Unit
delete_share_use_case libs input = committing (delete_share libs input)
