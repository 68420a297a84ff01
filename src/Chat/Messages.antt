-- ===== src/Chat/Messages.antt =====
-- src/fb/application/chat/send_message.py, mark_seen.py and get_messages.py
use facebook_clone.Prelude.{ℕ, Bool, Option, List, map}
use facebook_clone.Shared.Errors.{cannot_message_self}
use facebook_clone.Shared.Effects.{Effect, pure, lift, gets, raise_if, ◌>>=◌, ◌>>◌}
use facebook_clone.Shared.EntityId.{EntityId, Text, Libraries, from_str}
use facebook_clone.Shared.Text.{text_eq}
use facebook_clone.UnitOfWork.{UnitOfWork, committing}
use facebook_clone.Chat.Entities.{Message, ChatTables, create_message}
use facebook_clone.Chat.Cursor.{Codec}
use facebook_clone.Chat.Repository.{
  add, mark_conversation_seen, get_conversation_messages, PageInfo,
}

pub record SendMessageInput : Type 0 where
  pub sender_id : Text
  pub receiver_id : Text
  pub content : Text

pub record MessageOutput : Type 0 where
  pub id : Text
  pub sender_id : Text
  pub receiver_id : Text
  pub content : Text
  pub is_seen : Bool
  pub created_at : Option ℕ

abbrev pub message_output : Libraries → Message → MessageOutput
message_output libs message = record {
  id = libs.print_uuid message.id;
  sender_id = libs.print_uuid message.sender_id;
  receiver_id = libs.print_uuid message.receiver_id;
  content = message.content;
  is_seen = message.is_seen;
  created_at = message.created_at;
}

-- The calls of `SendMessageUseCase.execute` for parsed identifiers
unfoldable pub post_message :
    Libraries → ℕ → EntityId → EntityId → EntityId → Text → Effect ChatTables Message
post_message libs now new_id sender receiver content = do
  message ← lift (create_message new_id sender receiver content)
  add libs now message

unfoldable pub send_message :
    Libraries → ℕ → EntityId → SendMessageInput → Effect ChatTables MessageOutput
send_message libs now new_id input = do
  raise_if (text_eq input.sender_id input.receiver_id) cannot_message_self
  sender ← lift (from_str libs input.sender_id)
  receiver ← lift (from_str libs input.receiver_id)
  saved ← post_message libs now new_id sender receiver input.content
  pure (message_output libs saved)

-- `SendMessageUseCase.execute`
unfoldable pub send_message_use_case :
    Libraries → ℕ → EntityId → SendMessageInput → Effect (UnitOfWork ChatTables) MessageOutput
send_message_use_case libs now new_id input = committing (send_message libs now new_id input)

unfoldable pub see_conversation : Libraries → Text → Text → Effect ChatTables Unit
see_conversation libs user_id other_user_id = do
  user ← lift (from_str libs user_id)
  other ← lift (from_str libs other_user_id)
  mark_conversation_seen user other

-- `MarkConversationSeenUseCase.execute`
unfoldable pub see_conversation_use_case :
    Libraries → Text → Text → Effect (UnitOfWork ChatTables) Unit
see_conversation_use_case libs user_id other_user_id =
    committing (see_conversation libs user_id other_user_id)

pub record GetMessagesInput : Type 0 where
  pub user_id : Text
  pub other_user_id : Text
  pub limit : ℕ
  pub after : Option Text

pub record MessagesOutput : Type 0 where
  pub messages : List MessageOutput
  pub total_count : ℕ
  pub page_info : PageInfo

-- `GetMessagesUseCase.execute`
unfoldable pub get_messages :
    {libs : Libraries} → Codec libs → GetMessagesInput → Effect ChatTables MessagesOutput
get_messages {libs} codec input = do
  user ← lift (from_str libs input.user_id)
  other ← lift (from_str libs input.other_user_id)
  page ← gets (get_conversation_messages codec user other input.limit input.after)
  pure (record {
    messages = map (message_output libs) page.items;
    total_count = page.total_count;
    page_info = page.page_info;
  })
