-- ===== src/Notification/Outcomes.antt =====
-- What the use cases of notifications do, on every branch.
use facebook_clone.Prelude.{
  ℕ, Bool, ◌≡◌, ◌∙◌, refl, arith, false, ◌&&◌, not, some, none, if◌then◌else◌, ◌==◌, ◌+◌, indicator,
  ◌≤◌,
}
use facebook_clone.Shared.Errors.{
  Result, ok, err, type_error, data_error, integrity_error, notification_not_found, is_err,
}
use facebook_clone.Shared.EntityId.{EntityId, Text, Libraries, from_str}
use facebook_clone.Shared.Text.{text_eq}
use facebook_clone.Shared.Table.{find, insert, count, update_where}
use facebook_clone.Shared.Table.Counting.{scalar_one_or_none-select, count-insert}
use facebook_clone.Shared.Table.Keys.{Unique, count-le_of_Unique}
use facebook_clone.UnitOfWork.{endpoint}
use facebook_clone.UnitOfWork.Transactions.{answering, all_or_nothing, endpoint-committing_then}
use facebook_clone.Notification.Entities.{
  Notification, NotificationType, NotificationTables, read, notification_type, create_notification,
}
use facebook_clone.Notification.Repository.{
  has_id, is_too_long, is_permitted, is_unread_of, add, find_by_id, mark_read, count_unread,
}
use facebook_clone.Notification.Inbox.{
  NotificationOutput, CreateNotificationInput, save_notification, notification_output,
  read_notification,
}
use facebook_clone.Notification.Service.{create, announce}

-- The row of a new notification
abbrev pub new_notification :
    ℕ → EntityId → EntityId → EntityId → NotificationType → CreateNotificationInput → Notification
new_notification now new_id user_id actor_id kind input = record {
  id = new_id;
  user_id = user_id;
  actor_id = actor_id;
  kind = kind;
  entity_id = input.entity_id;
  entity_type = input.entity_type;
  message_text = input.message_text;
  is_read = false;
  created_at = some now;
}

abbrev pub same_id : Notification → Notification → Bool
same_id m n = m.id == n.id

id_le_one :
    (i : EntityId) (d : NotificationTables)
    → Unique same_id d.notifications
    → count (has_id i) d.notifications ≤ 1
id_le_one i d s = count-le_of_Unique same_id (has_id i) d.notifications (λ x y h k. ground arith) s

module _ (libs : Libraries) (now new_id : ℕ) (input : CreateNotificationInput)
    (d : NotificationTables) where
  -- What the constraints make of a row
  abbrev pub written : Notification → Result NotificationOutput × NotificationTables
  written row =
      if libs.init_takes_id
      then if is_too_long row
        then (err data_error, d)
        else if is_permitted d row
        then (
          ok (notification_output libs row),
          record d { notifications = insert row d.notifications },
        )
        else (err integrity_error, d)
      else (err type_error, d)

  written-answering :
      (has_pubsub : Bool) (row : Notification)
      → answering (announce has_pubsub) (all_or_nothing d (written row))
        ≡ answering (announce has_pubsub) (written row)
  written-answering has_pubsub row = ground arith

  count-written :
      (has_pubsub : Bool) (x : EntityId) (row : Notification)
      → row.is_read ≡ false
      → count (is_unread_of x) (answering (announce has_pubsub) (written row)).1.notifications
        ≡ count (is_unread_of x) d.notifications
          + indicator
              (row.user_id == x && not (is_err (answering (announce has_pubsub) (written row)).0))
  count-written has_pubsub x row unread =
      ground (arith, count-insert (is_unread_of x) row d.notifications)

  written_lem :
      (user actor : EntityId) (kind : NotificationType)
      → find (has_id new_id) d.notifications ≡ none
      → from_str libs input.user_id ≡ ok user
      → from_str libs input.actor_id ≡ ok actor
      → notification_type input.kind ≡ ok kind
      → save_notification libs now new_id input d
        ≡ written (new_notification now new_id user actor kind input)
  unfolding save_notification add create_notification
  written_lem user actor kind fresh p q r = ground arith

  -- For a new key and an input that parses, the endpoint of a new notification commits its row and
  -- publishes the answer to the receiver's channel exactly if the constraints permit the row; else
  -- nothing is written and nothing published.
  pub create_outcome :
      (has_pubsub : Bool) (user actor : EntityId) (kind : NotificationType)
      → find (has_id new_id) d.notifications ≡ none
      → from_str libs input.user_id ≡ ok user
      → from_str libs input.actor_id ≡ ok actor
      → notification_type input.kind ≡ ok kind
      → endpoint (create libs has_pubsub now new_id input) d
        ≡ answering
            (announce has_pubsub)
            (written (new_notification now new_id user actor kind input))
  unfolding create
  create_outcome has_pubsub user actor kind fresh p q r =
      endpoint-committing_then (save_notification libs now new_id input) (announce has_pubsub) d
      ∙ rw (written_lem user actor kind fresh p q r)
          (written-answering has_pubsub (new_notification now new_id user actor kind input))

  -- A notification that is committed adds one to what its receiver has not read, and to nobody
  -- else's count; one that is refused changes no count.
  pub count_unread-create :
      (has_pubsub : Bool) (user actor : EntityId) (kind : NotificationType) (x : EntityId)
      → find (has_id new_id) d.notifications ≡ none
      → from_str libs input.user_id ≡ ok user
      → from_str libs input.actor_id ≡ ok actor
      → notification_type input.kind ≡ ok kind
      → count_unread x (endpoint (create libs has_pubsub now new_id input) d).1
        ≡ count_unread x d
          + indicator
              (user == x && not (is_err (endpoint (create libs has_pubsub now new_id input) d).0))
  unfolding count_unread
  count_unread-create has_pubsub user actor kind x fresh p q r =
      rw (create_outcome has_pubsub user actor kind fresh p q r)
        (count-written has_pubsub x (new_notification now new_id user actor kind input) refl)

-- On tables with unique keys a notification is marked as read for the text of its receiver only:
-- to anybody else, and where there is none, the answer is that there is none.
pub read_notification_outcome :
    (libs : Libraries) (nid : EntityId) (user_id : Text) (d : NotificationTables)
    → Unique same_id d.notifications
    → read_notification libs nid user_id d ≡ (elim (find (has_id nid) d.notifications) [
      | none ↦ (err notification_not_found, d)
      | some n ↦
          if text_eq (libs.print_uuid n.user_id) user_id
          then (ok tt, record d { notifications = update_where (has_id nid) read d.notifications })
          else (err notification_not_found, d)
    ])
unfolding read_notification find_by_id mark_read
read_notification_outcome libs nid user_id d s =
    ground (arith, scalar_one_or_none-select (has_id nid) d.notifications (id_le_one nid d s))
