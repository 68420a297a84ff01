-- ===== src/Chat/Pages.antt =====
-- The pages of a conversation fit together.
use facebook_clone.Prelude.{
  ◌≤◌, is_some, ℕ, suc, ◌+◌, ◌<◌, ◌^◌, ◌≡◌, refl, Bool, true, false, Option, none, some, List, [],
  ◌∷◌, ◌++◌, take, drop, length, arith, ap, ◌∙◌, sym, Option-cases, inl, inr,
}
use facebook_clone.Shared.Errors.{Result, ok, err}
use facebook_clone.Shared.EntityId.{EntityId, Text, Libraries}
use facebook_clone.Shared.Text.{is_empty}
use facebook_clone.Shared.Table.{select, count, order_by, last}
use facebook_clone.Shared.Table.Order.{
  length-order_by, AreAllApart, IsOrdered, All-order_by, order_by-IsOrdered, All-last, All-select,
  select-order_by, select_after_last,
}
use facebook_clone.Shared.Table.Paging.{
  page-all, length-select, take_add, take-take, ltb-length-take, ltb-length-drop, select-true,
}
use facebook_clone.Chat.Entities.{Message, ChatTables, time_of}
use facebook_clone.Chat.Cursor.{Codec, encode_cursor, decode_cursor-encode_cursor}
use facebook_clone.Chat.Order.{
  IsSound, Unique-AreAllApart, newer_transitive, newer_asymmetric, AreAllApart-select,
}
use facebook_clone.Chat.Repository.{
  is_between, is_newer, is_older, cursor_of, cursor_filter, CursorPage, page_of,
  get_conversation_messages,
}

nonempty : (a : Text) (c : ℕ) (b : Text) → is_empty (a ++ c ∷ b) ≡ false
nonempty [] c b = refl
nonempty (_ ∷ _) c b = refl

-- What a caller reads of a page
abbrev pub items_of : Result CursorPage → List Message
items_of (err e) = []
items_of (ok p) = p.items

abbrev pub end_of : Result CursorPage → Option Text
end_of (err e) = none
end_of (ok p) = p.page_info.end_cursor

abbrev pub has_next : Result CursorPage → Bool
has_next (err e) = false
has_next (ok p) = p.page_info.has_next_page

module _ {libs : Libraries} (codec : Codec libs) (d : ChatTables) (s : IsSound d)
    (user_id other_user_id : EntityId) where
  abbrev rows : List Message
  rows = select (is_between user_id other_user_id) d.messages

  abbrev total : ℕ
  total = count (is_between user_id other_user_id) d.messages

  -- The conversation, newest first
  abbrev pub conversation : List Message
  conversation = order_by is_newer rows

  rows_apart : AreAllApart is_newer rows
  rows_apart =
      AreAllApart-select (is_between user_id other_user_id) d.messages
        (Unique-AreAllApart d.messages s.0)

  first_page :
      (n : ℕ)
      → get_conversation_messages codec user_id other_user_id n none d
        ≡ ok (page_of codec (take (suc n) conversation) n false total)
  unfolding get_conversation_messages
  first_page n =
      ap (λ xs. ok (page_of codec (take (suc n) (order_by is_newer xs)) n false total))
        (select-true rows)

  -- The message of a cursor
  cursor_lem :
      (o : Option Message) {cursor : Text}
      → cursor_of codec o ≡ some cursor
      → (c : Message) × (o ≡ some c)
        × (cursor ≡ encode_cursor codec (time_of c) (libs.print_uuid c.id))
  cursor_lem none e = cc
  cursor_lem (some c) {cursor} e = elim (Option-cases c.created_at) [
    | inl f ↦ let impossible : none ≡ some cursor = ground arith in absurd cc
    | inr (t, f) ↦ (c, refl, ground arith)
  ]

  nonempty_cursor :
      (t : ℕ) (i : EntityId) → is_empty (encode_cursor codec t (libs.print_uuid i)) ≡ false
  unfolding encode_cursor
  nonempty_cursor t i =
      codec.is_empty-urlsafe_b64encode (codec.isoformat t ++ 58 ∷ libs.print_uuid i)
      ∙ nonempty (codec.isoformat t) 58 (libs.print_uuid i)

  cursor_filter_lem :
      (t : ℕ) (i : EntityId)
      → i < 2 ^ 128
      → cursor_filter codec (some (encode_cursor codec t (libs.print_uuid i))) ≡ ok (is_older t i)
  cursor_filter_lem t i b = ground (
    arith,
    decode_cursor-encode_cursor codec t (libs.print_uuid i) (codec.print_uuid-no_colon i b),
    libs.parse_uuid-print_uuid i b,
    nonempty_cursor t i,
  )

  -- The rows after the end of a page are the rest of the conversation.
  rest_lem :
      (n : ℕ) {c : Message}
      → last (take n conversation) ≡ some c
      → order_by is_newer (select (is_newer c) rows) ≡ drop n conversation
  rest_lem n {c} e =
      sym (select-order_by is_newer newer_transitive newer_asymmetric (is_newer c) rows rows_apart)
      ∙ select_after_last is_newer newer_transitive newer_asymmetric n conversation
          (order_by-IsOrdered is_newer newer_transitive newer_asymmetric rows rows_apart) e

  bounded : (n : ℕ) {c : Message} → last (take n conversation) ≡ some c → c.id < 2 ^ 128
  bounded n {c} e =
      let P : Message → Type 0 = λ m. m.id < 2 ^ 128 in
      All-last is_newer newer_transitive newer_asymmetric P n conversation
        (All-order_by is_newer P rows (
          All-select is_newer newer_transitive newer_asymmetric P (is_between user_id other_user_id)
            d.messages s.1))
        e

  page_lem :
      (m : ℕ) (after : Option Text) {q : Message → Bool}
      → cursor_filter codec after ≡ ok q
      → get_conversation_messages codec user_id other_user_id m after d
        ≡ ok (
            page_of codec
              (take (suc m) (order_by is_newer (select q rows)))
              m
              (is_some after)
              total)
  unfolding get_conversation_messages
  page_lem m after h =
      ap
        (λ r. elim r [
          | err e ↦ err e
          | ok q ↦ ok (
              page_of codec (take (suc m) (order_by is_newer (select q rows))) m (is_some after)
                total)
        ])
        h

  -- The page after a cursor
  next_page :
      (n m : ℕ) {c : Message}
      → last (take n conversation) ≡ some c
      → get_conversation_messages codec user_id other_user_id m
          (some (encode_cursor codec (time_of c) (libs.print_uuid c.id)))
          d
        ≡ ok (page_of codec (take (suc m) (drop n conversation)) m true total)
  next_page n m {c} e =
      page_lem m (some (encode_cursor codec (time_of c) (libs.print_uuid c.id)))
        (cursor_filter_lem (time_of c) c.id (bounded n e))
      ∙ ap (λ xs. ok (page_of codec (take (suc m) xs) m true total)) (rest_lem n e)

  -- On sound tables, the page that begins at the end cursor of a first page continues it: the two
  -- hold what one page of both lengths holds, and the second says that more follows exactly if that
  -- page does.
  pub get_conversation_messages-append :
      (n m : ℕ) (cursor : Text)
      → end_of (get_conversation_messages codec user_id other_user_id n none d) ≡ some cursor
      → (items_of (get_conversation_messages codec user_id other_user_id n none d)
            ++ items_of (get_conversation_messages codec user_id other_user_id m (some cursor) d)
          ≡ items_of (get_conversation_messages codec user_id other_user_id (n + m) none d))
        × (has_next (get_conversation_messages codec user_id other_user_id m (some cursor) d)
            ≡ has_next (get_conversation_messages codec user_id other_user_id (n + m) none d))
  get_conversation_messages-append n m cursor =
      rw (first_page n, first_page (n + m))
        (λ e.
          let e' : cursor_of codec (last (take n conversation)) ≡ some cursor =
            ap (λ xs. cursor_of codec (last xs)) (sym (take-take n conversation)) ∙ e in
          let f = cursor_lem (last (take n conversation)) e' in
          rw (f.2, next_page n m f.1)
            (
              (rw
                  (
                    take-take n conversation,
                    take-take m (drop n conversation),
                    take-take (n + m) conversation,
                  )
                  (take_add n m conversation)),
              ltb-length-take m (drop n conversation)
                  ∙ ltb-length-drop n m conversation
                  ∙ sym (ltb-length-take (n + m) conversation),
            ))

  -- On sound tables, a first page as long as the count holds the whole conversation, newest first,
  -- and says that nothing follows.
  pub get_conversation_messages-all :
      (n : ℕ)
      → count (is_between user_id other_user_id) d.messages ≤ n
      → (items_of (get_conversation_messages codec user_id other_user_id n none d) ≡ conversation)
        × (length conversation ≡ count (is_between user_id other_user_id) d.messages)
        × IsOrdered is_newer conversation
        × (has_next (get_conversation_messages codec user_id other_user_id n none d) ≡ false)
  unfolding drop
  get_conversation_messages-all n h =
      let l : length conversation ≡ total =
        length-order_by is_newer rows
        ∙ length-select (is_between user_id other_user_id) d.messages in
      let short : length conversation ≤ n = ground arith in
      rw (first_page n) (
        take-take n conversation ∙ page-all n conversation short,
        l,
        order_by-IsOrdered is_newer newer_transitive newer_asymmetric rows rows_apart,
        ltb-length-take n conversation ∙ ground arith,
      )
