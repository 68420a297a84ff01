-- ===== src/Notification/Repository.antt =====
-- src/fb/infrastructure/repositories/notification_repo.py
use facebook_clone.Prelude.{
  ℕ, Bool, false, ◌&&◌, ◌||◌, not, Option, some, List, ◌==◌, ltb, length, if◌then◌else◌,
}
use facebook_clone.Shared.Errors.{err, type_error, data_error}
use facebook_clone.Shared.Effects.{Effect, gets, modify}
use facebook_clone.Shared.EntityId.{EntityId, Libraries}
use facebook_clone.Shared.Table.{
  select, count, update_where, scalar_one_or_none, merge, stored, order_by_desc, page,
}
use facebook_clone.Notification.Entities.{Notification, NotificationTables, has_user, read, time_of}

abbrev pub has_id : EntityId → Notification → Bool
has_id i n = n.id == i

-- The values that a merge copies
abbrev pub copy : Notification → Notification → Notification
copy n old = record old {
  user_id = n.user_id;
  actor_id = n.actor_id;
  kind = n.kind;
  entity_id = n.entity_id;
  entity_type = n.entity_type;
  message_text = n.message_text;
}

-- What the foreign keys permit
abbrev pub is_permitted : NotificationTables → Notification → Bool
is_permitted d row = has_user d row.user_id && has_user d row.actor_id

-- `String(255)` and `String(50)`
abbrev pub is_too_long : Notification → Bool
is_too_long row = ltb 255 (length row.entity_id) || ltb 50 (length row.entity_type)

-- `NotificationModel(id=…, …)` is refused where the constructor takes no `id`.
unfoldable pub add : Libraries → ℕ → Notification → Effect NotificationTables Notification
unfolding merge
add libs now notification d =
    let row = record notification { is_read = false; created_at = some now } in
    if libs.init_takes_id
    then if is_too_long row
      then (err data_error, d)
      else stored (λ rows t. record t { notifications = rows })
          (merge (is_permitted d row) (has_id row.id) (copy row) row d.notifications) d
    else (err type_error, d)

unfoldable pub find_by_id : EntityId → Effect NotificationTables (Option Notification)
find_by_id notification_id =
    gets (λ d. scalar_one_or_none (select (has_id notification_id) d.notifications))

-- The conditions of `get_by_user`
abbrev pub is_listed : EntityId → Bool → Notification → Bool
is_listed user_id unread_only n = n.user_id == user_id && (not unread_only || not n.is_read)

unfoldable pub get_by_user : EntityId → ℕ → ℕ → Bool → NotificationTables → List Notification
get_by_user user_id limit offset unread_only d =
    page limit offset
      (order_by_desc time_of (select (is_listed user_id unread_only) d.notifications))

abbrev pub is_unread_of : EntityId → Notification → Bool
is_unread_of user_id n = n.user_id == user_id && not n.is_read

unfoldable pub count_unread : EntityId → NotificationTables → ℕ
count_unread user_id d = count (is_unread_of user_id) d.notifications

unfoldable pub mark_read : EntityId → Effect NotificationTables Unit
mark_read notification_id =
    modify
      (λ d. record d { notifications = update_where (has_id notification_id) read d.notifications })

unfoldable pub mark_all_read : EntityId → Effect NotificationTables Unit
mark_all_read user_id =
    modify
      (λ d. record d { notifications = update_where (is_unread_of user_id) read d.notifications })
