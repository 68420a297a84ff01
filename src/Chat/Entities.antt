-- ===== src/Chat/Entities.antt =====
-- src/fb/domain/chat/entities.py, and the table of src/fb/infrastructure/database/models/message.py
use facebook_clone.Prelude.{
  ℕ, Bool, false, true, Option, none, some, List, length, ltb, if◌then◌else◌, ◌==◌,
}
use facebook_clone.Shared.Errors.{Result, ok, err, empty_message, message_too_long}
use facebook_clone.Shared.EntityId.{EntityId, Text}
use facebook_clone.Shared.Table.{exists}
use facebook_clone.Shared.Text.{is_blank, strip}

pub record Message : Type 0 where
  pub id : EntityId
  pub sender_id : EntityId
  pub receiver_id : EntityId
  pub content : Text
  pub is_seen : Bool
  pub created_at : Option ℕ

-- `Message.create`
unfoldable pub create_message : EntityId → EntityId → EntityId → Text → Result Message
create_message new_id sender_id receiver_id content =
    if is_blank content
    then err empty_message
    else if ltb 5000 (length content)
    then err message_too_long
    else ok (record {
      id = new_id;
      sender_id = sender_id;
      receiver_id = receiver_id;
      content = strip content;
      is_seen = false;
      created_at = none;
    })

-- `Message.mark_seen`
abbrev pub mark_seen : Message → Message
mark_seen message = record message { is_seen = true }

pub record ChatTables : Type 0 where
  -- the primary keys of the table `users`
  pub users : List EntityId
  pub messages : List Message

abbrev pub has_user : ChatTables → EntityId → Bool
has_user d i = exists (λ u. u == i) d.users

-- The time of a row, which is never null
abbrev pub time_of : Message → ℕ
time_of m = elim m.created_at [ none ↦ 0 | some t ↦ t ]
