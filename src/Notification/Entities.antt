-- ===== src/Notification/Entities.antt =====
-- src/fb/domain/notification/entities.py, and the table of
-- src/fb/infrastructure/database/models/notification.py
use facebook_clone.Prelude.{ℕ, Bool, false, true, Option, none, some, List, if◌then◌else◌, ◌==◌}
use facebook_clone.Shared.Errors.{Result, ok, err, value_error}
use facebook_clone.Shared.EntityId.{EntityId, Text}
use facebook_clone.Shared.Table.{exists}
use facebook_clone.Shared.Text.{codes, text_eq}

pub data NotificationType : Type 0 where
  like comment friend_request friend_accept mention share reaction message : NotificationType

-- `notification_type.value`
unfoldable pub type_value : NotificationType → Text
type_value like = codes "like"
type_value comment = codes "comment"
type_value friend_request = codes "friend_request"
type_value friend_accept = codes "friend_accept"
type_value mention = codes "mention"
type_value share = codes "share"
type_value reaction = codes "reaction"
type_value message = codes "message"

-- `NotificationType(text)`
unfoldable pub notification_type : Text → Result NotificationType
unfolding type_value
notification_type text =
    if text_eq text (type_value like)
    then ok like
    else if text_eq text (type_value comment)
    then ok comment
    else if text_eq text (type_value friend_request)
    then ok friend_request
    else if text_eq text (type_value friend_accept)
    then ok friend_accept
    else if text_eq text (type_value mention)
    then ok mention
    else if text_eq text (type_value share)
    then ok share
    else if text_eq text (type_value reaction)
    then ok reaction
    else if text_eq text (type_value message)
    then ok message
    else err value_error

pub record Notification : Type 0 where
  pub id : EntityId
  -- who receives the notification, and who triggered it
  pub user_id : EntityId
  pub actor_id : EntityId
  pub kind : NotificationType
  pub entity_id : Text
  pub entity_type : Text
  pub message_text : Text
  pub is_read : Bool
  pub created_at : Option ℕ

-- `Notification.create`
unfoldable pub create_notification :
    EntityId → EntityId → EntityId → NotificationType → Text → Text → Text → Notification
create_notification new_id user_id actor_id kind entity_id entity_type text = record {
  id = new_id;
  user_id = user_id;
  actor_id = actor_id;
  kind = kind;
  entity_id = entity_id;
  entity_type = entity_type;
  message_text = text;
  is_read = false;
  created_at = none;
}

-- `Notification.mark_read`
abbrev pub read : Notification → Notification
read n = record n { is_read = true }

pub record NotificationTables : Type 0 where
  -- the primary keys of the table `users`
  pub users : List EntityId
  pub notifications : List Notification

abbrev pub has_user : NotificationTables → EntityId → Bool
has_user d i = exists (λ u. u == i) d.users

-- The time of a row, which is never null
abbrev pub time_of : Notification → ℕ
time_of n = elim n.created_at [ none ↦ 0 | some t ↦ t ]
