-- ===== src/Chat/Sending.antt =====
-- What sending a message does, on every branch.
use facebook_clone.Prelude.{
  ℕ, ◌<◌, ◌^◌, ◌≡◌, true, false, ◌&&◌, some, none, length, ltb, if◌then◌else◌, arith, Bool-cases,
  inl, inr, ==_symm,
}
use facebook_clone.Shared.Errors.{
  ok, err, empty_message, message_too_long, type_error, integrity_error,
}
use facebook_clone.Shared.EntityId.{EntityId, Text, Libraries}
use facebook_clone.Shared.Text.{is_blank, strip, text_eq}
use facebook_clone.Shared.Table.{find, insert}
use facebook_clone.Shared.Table.Counting.{find-none, All-insert}
use facebook_clone.Shared.Table.Keys.{Unique-insert}
use facebook_clone.Chat.Entities.{Message, ChatTables, has_user, create_message}
use facebook_clone.Chat.Repository.{has_id, add}
use facebook_clone.Chat.Messages.{post_message, send_message, SendMessageInput, message_output}
use facebook_clone.Chat.Order.{IsSound, same_id}

-- The row of a new message, whose text is stripped
abbrev pub new_message : ℕ → EntityId → EntityId → EntityId → Text → Message
new_message now new_id sender receiver content = record {
  id = new_id;
  sender_id = sender;
  receiver_id = receiver;
  content = strip content;
  is_seen = false;
  created_at = some now;
}

module _ (libs : Libraries) (now new_id sender receiver : ℕ) (content : Text) (d : ChatTables) where
  pub post_message_outcome :
      find (has_id new_id) d.messages ≡ none
      → post_message libs now new_id sender receiver content d ≡ (
          if is_blank content
          then (err empty_message, d)
          else if ltb 5000 (length content)
          then (err message_too_long, d)
          else if libs.init_takes_id
          then if has_user d sender && has_user d receiver
            then (
              ok (new_message now new_id sender receiver content),
              record d {
                messages = insert (new_message now new_id sender receiver content) d.messages;
              },
            )
            else (err integrity_error, d)
          else (err type_error, d))
  unfolding post_message create_message add
  post_message_outcome fresh = ground arith

  -- A message with a new key of 128 bits keeps the keys unique.
  pub post_message-IsSound :
      find (has_id new_id) d.messages ≡ none
      → new_id < 2 ^ 128
      → IsSound d
      → IsSound (post_message libs now new_id sender receiver content d).1
  post_message-IsSound fresh b s =
      rw (post_message_outcome fresh) (elim (Bool-cases (is_blank content)) [
        | inl p ↦ rw p s
        | inr p ↦ rw p (elim (Bool-cases (ltb 5000 (length content))) [
          | inl q ↦ rw q s
          | inr q ↦ rw q (elim (Bool-cases libs.init_takes_id) [
            | inl t ↦ rw t (elim (Bool-cases (has_user d sender && has_user d receiver)) [
              | inl u ↦ rw u (
                Unique-insert same_id (new_message now new_id sender receiver content) d.messages
                    (λ x y. ==_symm y.id x.id) (find-none (has_id new_id) d.messages fresh) s.0,
                All-insert (λ m. m.id < 2 ^ 128) (new_message now new_id sender receiver content)
                    d.messages b s.1,
              )
              | inr u ↦ rw u s
            ])
            | inr t ↦ rw t s
          ])
        ])
      ])

-- Two different texts of the identifier of one user pass the check that nobody writes to
-- themselves: where the text of the message, its key and the user permit it, the message to oneself
-- is stored.
pub send_message-to_self :
    (libs : Libraries) (now new_id user : ℕ) (input : SendMessageInput) (d : ChatTables)
    → text_eq input.sender_id input.receiver_id ≡ false
    → libs.parse_uuid input.sender_id ≡ some user
    → libs.parse_uuid input.receiver_id ≡ some user
    → is_blank input.content ≡ false
    → ltb 5000 (length input.content) ≡ false
    → libs.init_takes_id ≡ true
    → has_user d user ≡ true
    → find (has_id new_id) d.messages ≡ none
    → send_message libs now new_id input d ≡ (
      ok (message_output libs (new_message now new_id user user input.content)),
      record d { messages = insert (new_message now new_id user user input.content) d.messages },
    )
unfolding send_message
send_message-to_self libs now new_id user input d other p q b l t u fresh =
    ground (arith, post_message_outcome libs now new_id user user input.content d fresh)
