-- ===== src/Chat/Tests.antt =====
-- The theorems on chat at a small database: users 1 and 2 have written to each other.
use facebook_clone.Prelude.{
  ℕ, ◌+◌, ◌-◌, ◌≡◌, ◌++◌, refl, ap, true, false, Option, none, some, [], ◌∷◌, ◌==◌, take, arith,
}
use facebook_clone.Shared.Errors.{ok}
use facebook_clone.Shared.EntityId.{EntityId, Text, Libraries}
use facebook_clone.Shared.Text.{codes}
use facebook_clone.Shared.Table.{count, exists, select, order_by, place, last}
use facebook_clone.Chat.Entities.{Message, ChatTables}
use facebook_clone.Chat.Cursor.{Codec, encode_cursor, decode_cursor, decode_cursor-encode_cursor}
use facebook_clone.Chat.Repository.{get_conversation_messages}
use facebook_clone.Chat.Order.{IsSound}
use facebook_clone.Chat.Pages.{items_of, has_next, get_conversation_messages-append}
use facebook_clone.Chat.Sending.{new_message}

-- Identifiers written as one character beyond the colon; what follows it is not read.
abbrev parse : Text → Option EntityId
parse [] = none
parse (c ∷ _) = some (c - 59)

abbrev libs : Libraries
libs = record {
  parse_uuid = parse;
  print_uuid = λ i. (i + 59) ∷ [];
  parse_uuid-print_uuid = λ i h. ap some (omega arith);
  init_takes_id = true;
}

abbrev read_time : Text → Option ℕ
read_time [] = none
read_time (c ∷ _) = some c

colon_free : (i : EntityId) → exists (λ c. c == 58) ((i + 59) ∷ []) ≡ false
unfolding exists
colon_free i = ground arith

abbrev codec : Codec libs
codec = record {
  isoformat = λ t. t ∷ [];
  fromisoformat = read_time;
  fromisoformat-isoformat = λ t. refl;
  urlsafe_b64encode = λ raw. raw;
  urlsafe_b64decode = some;
  urlsafe_b64decode-urlsafe_b64encode = λ raw. refl;
  is_empty-urlsafe_b64encode = λ raw. refl;
  print_uuid-no_colon = λ i h. colon_free i;
}

abbrev hello : Message
hello = new_message 5 10 1 2 (codes "hello")

abbrev reply : Message
reply = new_message 6 11 2 1 (codes "hi")

abbrev tables : ChatTables
tables = record { users = 1 ∷ 2 ∷ []; messages = hello ∷ reply ∷ [] }

tables-IsSound : IsSound tables
unfolding count
tables-IsSound = ((refl, (refl, tt)), (omega arith, (omega arith, tt)))

decode_cursor-encode_cursor_example :
    decode_cursor codec (encode_cursor codec 7 (codes "a")) ≡ ok (7, codes "a")
unfolding exists
decode_cursor-encode_cursor_example = decode_cursor-encode_cursor codec 7 (codes "a") refl

-- The cursor of the newest message, and the page after it
get_conversation_messages-append_example :
    (items_of (get_conversation_messages codec 1 2 1 none tables)
        ++ items_of (get_conversation_messages codec 1 2 1 (some (6 ∷ 58 ∷ 70 ∷ [])) tables)
      ≡ items_of (get_conversation_messages codec 1 2 (1 + 1) none tables))
    × (has_next (get_conversation_messages codec 1 2 1 (some (6 ∷ 58 ∷ 70 ∷ [])) tables)
        ≡ has_next (get_conversation_messages codec 1 2 (1 + 1) none tables))
unfolding get_conversation_messages select order_by place take last encode_cursor
get_conversation_messages-append_example =
    get_conversation_messages-append codec tables tables-IsSound 1 2 1 1 (6 ∷ 58 ∷ 70 ∷ []) refl
