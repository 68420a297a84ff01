-- ===== src/Post/Reactions.antt =====
-- src/fb/application/post/react_post.py and remove_reaction.py
use facebook_clone.Prelude.{Option, none, some}
use facebook_clone.Shared.Errors.{post_not_found, already_reacted, reaction_not_found}
use facebook_clone.Shared.Effects.{Effect, pure, lift, raise_if, or_raise, ◌>>=◌, ◌>>◌}
use facebook_clone.Shared.EntityId.{EntityId, Text, Libraries, from_str}
use facebook_clone.UnitOfWork.{UnitOfWork, committing}
use facebook_clone.Post.Entities.{
  Datetime, Post, Reaction, ReactionType, reaction_type, reaction_value, same_type, create_reaction,
  increment_like_count,
}
use facebook_clone.Post.Tables.{PostTables}
use facebook_clone.Post.PostRepository
use facebook_clone.Post.ReactionRepository
use facebook_clone.Post.Likes.{take_back_like}

pub record ReactToPostInput : Type 0 where
  pub post_id : Text
  pub user_id : Text
  pub reaction_type : Text

pub record RemoveReactionInput : Type 0 where
  pub post_id : Text
  pub user_id : Text

pub record ReactionOutput : Type 0 where
  pub id : Text
  pub post_id : Text
  pub user_id : Text
  pub reaction_type : Text
  pub created_at : Option Datetime

abbrev pub reaction_output : Libraries → Reaction → ReactionOutput
reaction_output libs saved = record {
  id = libs.print_uuid saved.id;
  post_id = libs.print_uuid saved.post_id;
  user_id = libs.print_uuid saved.user_id;
  reaction_type = reaction_value saved.reaction_type;
  created_at = saved.created_at;
}

-- `if existing: … else: …`: a reaction of another type makes way, and a new one counts.
abbrev pub make_way : Post → ReactionType → Option Reaction → Effect PostTables Unit
make_way post type none = do PostRepository.update (increment_like_count post); pure tt
make_way post type (some existing) = do
  raise_if (same_type existing.reaction_type type) already_reacted
  ReactionRepository.delete existing.id

-- The repository calls of `ReactToPostUseCase.execute` for parsed arguments
unfoldable pub react :
    Datetime → EntityId → EntityId → EntityId → ReactionType → Effect PostTables Reaction
react now new_id post_id user_id type = do
  found ← PostRepository.find_by_id post_id
  post ← or_raise found post_not_found
  existing ← ReactionRepository.find_by_post_and_user post_id user_id
  make_way post type existing
  ReactionRepository.save now (create_reaction new_id post_id user_id type)

unfoldable pub react_to_post :
    Libraries → Datetime → EntityId → ReactToPostInput → Effect PostTables ReactionOutput
react_to_post libs now new_id input = do
  post_id ← lift (from_str libs input.post_id)
  user_id ← lift (from_str libs input.user_id)
  type ← lift (reaction_type input.reaction_type)
  saved ← react now new_id post_id user_id type
  pure (reaction_output libs saved)

-- `ReactToPostUseCase.execute`
unfoldable pub react_to_post_use_case :
    Libraries
    → Datetime
    → EntityId
    → ReactToPostInput
    → Effect (UnitOfWork PostTables) ReactionOutput
react_to_post_use_case libs now new_id input = committing (react_to_post libs now new_id input)

-- The repository calls of `RemoveReactionUseCase.execute` for parsed identifiers
unfoldable pub unreact : EntityId → EntityId → Effect PostTables Unit
unreact post_id user_id = do
  found ← ReactionRepository.find_by_post_and_user post_id user_id
  reaction ← or_raise found reaction_not_found
  post ← PostRepository.find_by_id post_id
  take_back_like post
  ReactionRepository.delete reaction.id

unfoldable pub remove_reaction : Libraries → RemoveReactionInput → Effect PostTables Unit
remove_reaction libs input = do
  post_id ← lift (from_str libs input.post_id)
  user_id ← lift (from_str libs input.user_id)
  unreact post_id user_id

-- `RemoveReactionUseCase.execute`
unfoldable pub remove_reaction_use_case :
    Libraries → RemoveReactionInput → Effect (UnitOfWork PostTables) Unit
remove_reaction_use_case libs input = committing (remove_reaction libs input)
