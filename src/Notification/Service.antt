-- ===== src/Notification/Service.antt =====
-- src/fb/application/notification/notification_service.py. What a service publishes comes back
-- beside its answer; the publication itself is a call of Redis.
use facebook_clone.Prelude.{ℕ, Bool, Option, none, some, ◌++◌, if◌then◌else◌}
use facebook_clone.Shared.Effects.{Effect, pure, ◌>>=◌}
use facebook_clone.Shared.EntityId.{EntityId, Text, Libraries}
use facebook_clone.Shared.Text.{codes, text_eq}
use facebook_clone.UnitOfWork.{UnitOfWork, committing}
use facebook_clone.Notification.Entities.{NotificationTables}
use facebook_clone.Notification.Inbox.{
  NotificationOutput, CreateNotificationInput, save_notification,
}

-- `self._pubsub.publish(channel, {"type": "notification.new", "data": {…}})`
pub record Publication : Type 0 where
  pub channel : Text
  pub event_type : Text
  -- the keys of `data`, which are those of the output without the user
  pub data_id : Text
  pub data_kind : Text
  pub data_message : Text
  pub data_entity_id : Text
  pub data_entity_type : Text
  pub data_actor_id : Text
  pub data_is_read : Bool
  pub data_created_at : Option ℕ

abbrev pub publication : NotificationOutput → Publication
publication output = record {
  channel = output.user_id;
  event_type = codes "notification.new";
  data_id = output.id;
  data_kind = output.kind;
  data_message = output.message_text;
  data_entity_id = output.entity_id;
  data_entity_type = output.entity_type;
  data_actor_id = output.actor_id;
  data_is_read = output.is_read;
  data_created_at = output.created_at;
}

-- An answer, and what is published
abbrev pub Notified : Type 0
Notified = Option NotificationOutput × Option Publication

-- `if self._pubsub is not None: publish`
abbrev pub announce : Bool → NotificationOutput → Notified
announce has_pubsub output = (some output, if has_pubsub then some (publication output) else none)

module _ (libs : Libraries) (has_pubsub : Bool) (now : ℕ) (new_id : EntityId) where
  -- `_create`
  unfoldable pub create : CreateNotificationInput → Effect (UnitOfWork NotificationTables) Notified
  create input = do
    output ← committing (save_notification libs now new_id input)
    pure (announce has_pubsub output)

  -- `if author_id == actor_id: return None`
  abbrev pub unless_own : CreateNotificationInput → Effect (UnitOfWork NotificationTables) Notified
  unless_own input =
      if text_eq input.user_id input.actor_id then pure (none, none) else create input

  unfoldable pub notify_like :
      Text → Text → Text → Text → Effect (UnitOfWork NotificationTables) Notified
  unfolding create
  notify_like post_author_id liker_id post_id liker_name = unless_own (record {
    user_id = post_author_id;
    actor_id = liker_id;
    kind = codes "like";
    entity_id = post_id;
    entity_type = codes "post";
    message_text = liker_name ++ codes " liked your post";
  })

  unfoldable pub notify_comment :
      Text → Text → Text → Text → Effect (UnitOfWork NotificationTables) Notified
  unfolding create
  notify_comment post_author_id commenter_id post_id commenter_name = unless_own (record {
    user_id = post_author_id;
    actor_id = commenter_id;
    kind = codes "comment";
    entity_id = post_id;
    entity_type = codes "post";
    message_text = commenter_name ++ codes " commented on your post";
  })

  unfoldable pub notify_friend_request :
      Text → Text → Text → Text → Effect (UnitOfWork NotificationTables) Notified
  unfolding create
  notify_friend_request receiver_id sender_id request_id sender_name = create (record {
    user_id = receiver_id;
    actor_id = sender_id;
    kind = codes "friend_request";
    entity_id = request_id;
    entity_type = codes "friend_request";
    message_text = sender_name ++ codes " sent you a friend request";
  })

  unfoldable pub notify_friend_accept :
      Text → Text → Text → Text → Effect (UnitOfWork NotificationTables) Notified
  unfolding create
  notify_friend_accept sender_id acceptor_id request_id acceptor_name = create (record {
    user_id = sender_id;
    actor_id = acceptor_id;
    kind = codes "friend_accept";
    entity_id = request_id;
    entity_type = codes "friend_request";
    message_text = acceptor_name ++ codes " accepted your friend request";
  })

  unfoldable pub notify_share :
      Text → Text → Text → Text → Effect (UnitOfWork NotificationTables) Notified
  unfolding create
  notify_share post_author_id sharer_id post_id sharer_name = unless_own (record {
    user_id = post_author_id;
    actor_id = sharer_id;
    kind = codes "share";
    entity_id = post_id;
    entity_type = codes "post";
    message_text = sharer_name ++ codes " shared your post";
  })

  unfoldable pub notify_reaction :
      Text → Text → Text → Text → Text → Effect (UnitOfWork NotificationTables) Notified
  unfolding create
  notify_reaction post_author_id reactor_id post_id reaction_type reactor_name =
      unless_own (record {
        user_id = post_author_id;
        actor_id = reactor_id;
        kind = codes "reaction";
        entity_id = post_id;
        entity_type = codes "post";
        message_text = reactor_name ++ codes " reacted " ++ reaction_type ++ codes " to your post";
      })
