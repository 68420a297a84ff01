-- ===== src/Post/Entities.antt =====
-- The entities and values of src/fb/domain/post: Post, PostContent, Like, Reaction, Comment, Share.
use facebook_clone.Prelude.{
  ℕ, ◌+◌, ◌-◌, Bool, true, false, Option, none, List, length, ltb, if◌then◌else◌,
}
use facebook_clone.Shared.Errors.{Result, ok, err, value_error}
use facebook_clone.Shared.EntityId.{EntityId, Text}
use facebook_clone.Shared.Text.{is_blank, text_eq, codes}

-- A time stamp, `datetime`, in microseconds.
abbrev pub Datetime : Type 0
Datetime = ℕ

pub record Post : Type 0 where
  pub id : EntityId
  pub author_id : EntityId
  pub content : Text
  pub media_urls : List Text
  pub like_count : ℕ
  pub comment_count : ℕ
  pub is_published : Bool
  pub created_at : Option Datetime

-- `Post.create`
unfoldable pub create_post : EntityId → EntityId → Text → List Text → Post
create_post new_id author_id content media_urls = record {
  id = new_id;
  author_id = author_id;
  content = content;
  media_urls = media_urls;
  like_count = 0;
  comment_count = 0;
  is_published = true;
  created_at = none;
}

abbrev pub update_content : Text → Post → Post
update_content new_content post = record post { content = new_content }

abbrev pub increment_like_count : Post → Post
increment_like_count post = record post { like_count = post.like_count + 1 }

-- `max(0, n - 1)`, which is the subtraction of ℕ
abbrev pub decrement_like_count : Post → Post
decrement_like_count post = record post { like_count = post.like_count - 1 }

abbrev pub increment_comment_count : Post → Post
increment_comment_count post = record post { comment_count = post.comment_count + 1 }

abbrev pub decrement_comment_count : Post → Post
decrement_comment_count post = record post { comment_count = post.comment_count - 1 }

-- `Post.delete`, a soft delete
abbrev pub unpublish : Post → Post
unpublish post = record post { is_published = false }

-- The construction of a `PostContent`
unfoldable pub post_content : Text → Result Text
post_content value =
    if is_blank value
    then err value_error
    else if ltb 5000 (length value)
    then err value_error
    else ok value

pub record Like : Type 0 where
  pub id : EntityId
  pub post_id : EntityId
  pub user_id : EntityId
  pub created_at : Option Datetime

-- `Like.create`
unfoldable pub create_like : EntityId → EntityId → EntityId → Like
create_like new_id post_id user_id = record {
  id = new_id;
  post_id = post_id;
  user_id = user_id;
  created_at = none;
}

pub data ReactionType : Type 0 where
  like love haha wow sad angry : ReactionType

-- `ReactionType(value)`
unfoldable pub reaction_type : Text → Result ReactionType
reaction_type value =
    if text_eq value (codes "LIKE")
    then ok like
    else if text_eq value (codes "LOVE")
    then ok love
    else if text_eq value (codes "HAHA")
    then ok haha
    else if text_eq value (codes "WOW")
    then ok wow
    else if text_eq value (codes "SAD")
    then ok sad
    else if text_eq value (codes "ANGRY")
    then ok angry
    else err value_error

-- `reaction_type.value`
unfoldable pub reaction_value : ReactionType → Text
reaction_value like = codes "LIKE"
reaction_value love = codes "LOVE"
reaction_value haha = codes "HAHA"
reaction_value wow = codes "WOW"
reaction_value sad = codes "SAD"
reaction_value angry = codes "ANGRY"

pub record Reaction : Type 0 where
  pub id : EntityId
  pub post_id : EntityId
  pub user_id : EntityId
  pub reaction_type : ReactionType
  pub created_at : Option Datetime

-- `Reaction.create`
unfoldable pub create_reaction : EntityId → EntityId → EntityId → ReactionType → Reaction
create_reaction new_id post_id user_id type = record {
  id = new_id;
  post_id = post_id;
  user_id = user_id;
  reaction_type = type;
  created_at = none;
}

-- The `==` of two reaction types
unfoldable pub same_type : ReactionType → ReactionType → Bool
same_type like like = true
same_type love love = true
same_type haha haha = true
same_type wow wow = true
same_type sad sad = true
same_type angry angry = true
same_type _ _ = false

pub record Comment : Type 0 where
  pub id : EntityId
  pub post_id : EntityId
  pub author_id : EntityId
  pub content : Text
  pub created_at : Option Datetime

-- `Comment.create`
unfoldable pub create_comment : EntityId → EntityId → EntityId → Text → Result Comment
create_comment new_id post_id author_id content =
    if is_blank content
    then err value_error
    else if ltb 2000 (length content)
    then err value_error
    else ok (record {
      id = new_id;
      post_id = post_id;
      author_id = author_id;
      content = content;
      created_at = none;
    })

pub record Share : Type 0 where
  pub id : EntityId
  pub post_id : EntityId
  pub user_id : EntityId
  pub content : Text
  pub created_at : Option Datetime

-- `Share.create`
unfoldable pub create_share : EntityId → EntityId → EntityId → Text → Share
create_share new_id post_id user_id content = record {
  id = new_id;
  post_id = post_id;
  user_id = user_id;
  content = content;
  created_at = none;
}
