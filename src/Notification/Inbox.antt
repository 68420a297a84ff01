-- ===== src/Notification/Inbox.antt =====
-- src/fb/application/notification/create_notification.py, get_notifications.py and mark_read.py
use facebook_clone.Prelude.{ℕ, Bool, false, not, Option, none, List, [], map, length, if◌then◌else◌}
use facebook_clone.Shared.Errors.{ok, notification_not_found}
use facebook_clone.Shared.Effects.{Effect, pure, lift, gets, raise_if, or_raise, ◌>>=◌, ◌>>◌}
use facebook_clone.Shared.EntityId.{EntityId, Text, Libraries, from_str}
use facebook_clone.Shared.Text.{text_eq}
use facebook_clone.UnitOfWork.{UnitOfWork, committing}
use facebook_clone.Notification.Entities.{
  Notification, NotificationTables, notification_type, type_value, create_notification,
}
use facebook_clone.Notification.Repository.{
  add, find_by_id, get_by_user, count_unread, mark_read, mark_all_read,
}

-- The time stays a number.
pub record NotificationOutput : Type 0 where
  pub id : Text
  pub user_id : Text
  pub actor_id : Text
  pub kind : Text
  pub entity_id : Text
  pub entity_type : Text
  pub message_text : Text
  pub is_read : Bool
  pub created_at : Option ℕ

pub record CreateNotificationInput : Type 0 where
  pub user_id : Text
  pub actor_id : Text
  pub kind : Text
  pub entity_id : Text
  pub entity_type : Text
  pub message_text : Text

pub record NotificationsOutput : Type 0 where
  pub notifications : List NotificationOutput
  pub unread_count : ℕ
  pub total_count : ℕ

-- `_to_output`
abbrev pub notification_output : Libraries → Notification → NotificationOutput
notification_output libs n = record {
  id = libs.print_uuid n.id;
  user_id = libs.print_uuid n.user_id;
  actor_id = libs.print_uuid n.actor_id;
  kind = type_value n.kind;
  entity_id = n.entity_id;
  entity_type = n.entity_type;
  message_text = n.message_text;
  is_read = n.is_read;
  created_at = n.created_at;
}

-- What is answered to somebody who would notify themselves
abbrev pub unsaved_output : CreateNotificationInput → NotificationOutput
unsaved_output input = record {
  id = [];
  user_id = input.user_id;
  actor_id = input.actor_id;
  kind = input.kind;
  entity_id = input.entity_id;
  entity_type = input.entity_type;
  message_text = input.message_text;
  is_read = false;
  created_at = none;
}

-- The parses and the repository call that a new notification takes
unfoldable pub save_notification :
    Libraries
    → ℕ
    → EntityId
    → CreateNotificationInput
    → Effect NotificationTables NotificationOutput
save_notification libs now new_id input = do
  user_id ← lift (from_str libs input.user_id)
  actor_id ← lift (from_str libs input.actor_id)
  kind ← lift (notification_type input.kind)
  saved ← add libs now (
      create_notification new_id user_id actor_id kind input.entity_id input.entity_type
        input.message_text)
  pure (notification_output libs saved)

-- `CreateNotificationUseCase.execute`
unfoldable pub create_notification_use_case :
    Libraries
    → ℕ
    → EntityId
    → CreateNotificationInput
    → Effect (UnitOfWork NotificationTables) NotificationOutput
create_notification_use_case libs now new_id input =
    if text_eq input.user_id input.actor_id
    then pure (unsaved_output input)
    else committing (save_notification libs now new_id input)

-- `GetNotificationsUseCase.execute`
unfoldable pub get_notifications :
    Libraries → Text → ℕ → ℕ → Bool → Effect NotificationTables NotificationsOutput
get_notifications libs user_id limit offset unread_only = do
  uid ← lift (from_str libs user_id)
  notifications ← gets (λ d. ok (get_by_user uid limit offset unread_only d))
  unread_count ← gets (λ d. ok (count_unread uid d))
  pure (record {
    notifications = map (notification_output libs) notifications;
    unread_count = unread_count;
    total_count = length notifications;
  })

-- The repository calls of `MarkNotificationReadUseCase.execute`
unfoldable pub read_notification : Libraries → EntityId → Text → Effect NotificationTables Unit
read_notification libs nid user_id = do
  found ← find_by_id nid
  notification ← or_raise found notification_not_found
  raise_if (not (text_eq (libs.print_uuid notification.user_id) user_id)) notification_not_found
  mark_read nid

-- `MarkNotificationReadUseCase.execute`
unfoldable pub mark_read_use_case :
    Libraries → Text → Text → Effect (UnitOfWork NotificationTables) Unit
mark_read_use_case libs notification_id user_id =
    committing (do nid ← lift (from_str libs notification_id); read_notification libs nid user_id)

-- `MarkAllReadUseCase.execute`
unfoldable pub mark_all_read_use_case :
    Libraries → Text → Effect (UnitOfWork NotificationTables) Unit
mark_all_read_use_case libs user_id =
    committing (do uid ← lift (from_str libs user_id); mark_all_read uid)
