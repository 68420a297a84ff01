-- ===== src/Chat/Repository.antt =====
-- src/fb/infrastructure/repositories/message_repo.py
use facebook_clone.Prelude.{
  ℕ, suc, Bool, true, false, ◌&&◌, ◌||◌, not, Option, none, some, List, ◌==◌, ltb, take, length,
  if◌then◌else◌, is_some,
}
use facebook_clone.Shared.Errors.{Result, ok, err, type_error, data_error}
use facebook_clone.Shared.Effects.{Effect, gets, modify}
use facebook_clone.Shared.EntityId.{EntityId, Text, Libraries}
use facebook_clone.Shared.Text.{is_empty}
use facebook_clone.Shared.Table.{
  select, count, update_where, scalar_one_or_none, merge, stored, order_by, first, last,
}
use facebook_clone.Chat.Entities.{Message, ChatTables, has_user, mark_seen, time_of}
use facebook_clone.Chat.Cursor.{Codec, encode_cursor, decode_cursor}

abbrev pub has_id : EntityId → Message → Bool
has_id i m = m.id == i

-- The values that a merge copies
abbrev pub copy : Message → Message → Message
copy m old = record old {
  sender_id = m.sender_id;
  receiver_id = m.receiver_id;
  content = m.content;
  is_seen = false;
}

-- What the foreign keys permit
abbrev pub is_permitted : ChatTables → Message → Bool
is_permitted d row = has_user d row.sender_id && has_user d row.receiver_id

-- `MessageModel(id=…, …)` is refused where the constructor takes no `id`.
unfoldable pub add : Libraries → ℕ → Message → Effect ChatTables Message
unfolding merge
add libs now message d =
    let row = record message { is_seen = false; created_at = some now } in
    if libs.init_takes_id
    then stored (λ rows t. record t { messages = rows })
        (merge (is_permitted d row) (has_id row.id) (copy row) row d.messages) d
    else (err type_error, d)

unfoldable pub find_by_id : EntityId → Effect ChatTables (Option Message)
find_by_id message_id = gets (λ d. scalar_one_or_none (select (has_id message_id) d.messages))

unfoldable pub mark_message_seen : EntityId → Effect ChatTables Unit
mark_message_seen message_id =
    modify (λ d. record d { messages = update_where (has_id message_id) mark_seen d.messages })

abbrev pub is_unseen_from : EntityId → EntityId → Message → Bool
is_unseen_from user_id other_user_id m =
    m.sender_id == other_user_id && m.receiver_id == user_id && not m.is_seen

unfoldable pub mark_conversation_seen : EntityId → EntityId → Effect ChatTables Unit
mark_conversation_seen user_id other_user_id = modify (λ d. record d {
  messages = update_where (is_unseen_from user_id other_user_id) mark_seen d.messages;
})

abbrev pub is_unseen_by : EntityId → Message → Bool
is_unseen_by user_id m = m.receiver_id == user_id && not m.is_seen

unfoldable pub get_unread_count : EntityId → ChatTables → ℕ
get_unread_count user_id d = count (is_unseen_by user_id) d.messages

pub record PageInfo : Type 0 where
  pub has_next_page : Bool
  pub has_previous_page : Bool
  pub start_cursor : Option Text
  pub end_cursor : Option Text

pub record CursorPage : Type 0 where
  pub items : List Message
  pub page_info : PageInfo
  pub total_count : ℕ

-- `conversation_filter`
abbrev pub is_between : EntityId → EntityId → Message → Bool
is_between user_id other_user_id m =
    m.sender_id == user_id && m.receiver_id == other_user_id
    || m.sender_id == other_user_id && m.receiver_id == user_id

-- ORDER BY created_at DESC, id DESC
abbrev pub is_newer : Message → Message → Bool
is_newer x y = ltb (time_of y) (time_of x) || time_of y == time_of x && ltb y.id x.id

-- The filter of a cursor
abbrev pub is_older : ℕ → EntityId → Message → Bool
is_older cursor_time cursor_id m =
    ltb (time_of m) cursor_time || time_of m == cursor_time && ltb m.id cursor_id

module _ {libs : Libraries} (codec : Codec libs) where
  -- `encode_cursor(item.created_at, str(item.id))`, where there is an item with a time
  abbrev pub timed_cursor : Message → Option ℕ → Option Text
  timed_cursor m none = none
  timed_cursor m (some t) = some (encode_cursor codec t (libs.print_uuid m.id))

  abbrev pub cursor_of : Option Message → Option Text
  cursor_of none = none
  cursor_of (some m) = timed_cursor m m.created_at

  -- The database reads the cursor's identifier as a UUID.
  abbrev pub older_filter : Result (ℕ × Text) → Result (Message → Bool)
  older_filter (err e) = err e
  older_filter (ok parts) = elim (libs.parse_uuid parts.1) [
    | none ↦ err data_error
    | some i ↦ ok (is_older parts.0 i)
  ]

  -- `if after_cursor:`
  abbrev pub cursor_filter : Option Text → Result (Message → Bool)
  cursor_filter none = ok (λ m. true)
  cursor_filter (some cursor) =
      if is_empty cursor then ok (λ m. true) else older_filter (decode_cursor codec cursor)

  -- The page that the query's rows make
  abbrev pub page_of : List Message → ℕ → Bool → ℕ → CursorPage
  page_of models limit has_previous total =
      let items = take limit models in
      record {
        items = items;
        page_info = record {
          has_next_page = ltb limit (length models);
          has_previous_page = has_previous;
          start_cursor = cursor_of (first items);
          end_cursor = cursor_of (last items);
        };
        total_count = total;
      }

  unfoldable pub get_conversation_messages :
      EntityId → EntityId → ℕ → Option Text → ChatTables → Result CursorPage
  get_conversation_messages user_id other_user_id limit after_cursor d =
      elim (cursor_filter after_cursor) [
        | err e ↦ err e
        | ok is_after ↦ ok (
            page_of
              (take (suc limit) (
                order_by is_newer
                  (select is_after (select (is_between user_id other_user_id) d.messages))))
              limit (is_some after_cursor) (count (is_between user_id other_user_id) d.messages))
      ]
