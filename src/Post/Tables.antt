-- ===== src/Post/Tables.antt =====
-- The tables of src/fb/infrastructure/database/models/{post,like,reaction,comment,share}.py, with
-- their primary keys, unique constraints and foreign keys. A row is the entity that `_to_entity`
-- reads.
use facebook_clone.Prelude.{Bool, List, ◌==◌}
use facebook_clone.Shared.EntityId.{EntityId}
use facebook_clone.Shared.Table.{exists}
use facebook_clone.Post.Entities.{Post, Like, Reaction, Comment, Share}

pub record PostTables : Type 0 where
  -- the primary keys of the table `users`
  pub users : List EntityId
  pub posts : List Post
  pub likes : List Like
  pub reactions : List Reaction
  pub comments : List Comment
  pub shares : List Share

abbrev pub has_user : PostTables → EntityId → Bool
has_user d i = exists (λ u. u == i) d.users

abbrev pub has_post : PostTables → EntityId → Bool
has_post d i = exists (λ p. p.id == i) d.posts
