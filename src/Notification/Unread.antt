-- ===== src/Notification/Unread.antt =====
-- What a user has not read, before and after marks.
use facebook_clone.Prelude.{
  ℕ, ◌+◌, ◌≡◌, refl, false, true, ◌&&◌, ◌==◌, arith, List, [], ◌∷◌, length, ◌≤◌, ◌∙◌,
}
use facebook_clone.Shared.EntityId.{EntityId}
use facebook_clone.Shared.Table.{count, update_where, select, order_by_desc}
use facebook_clone.Shared.Table.Counting.{count_congr}
use facebook_clone.Shared.Table.Paging.{length-order_by_desc, length-select, page-all}
use facebook_clone.Notification.Entities.{Notification, NotificationTables, read, time_of}
use facebook_clone.Notification.Repository.{
  has_id, is_unread_of, is_listed, mark_all_read, count_unread, get_by_user,
}

module _ (user : EntityId) where
  none_lem :
      (rows : List Notification)
      → count (is_unread_of user) (update_where (is_unread_of user) read rows) ≡ 0
  unfolding count update_where
  none_lem [] = refl
  none_lem (n ∷ rows) = ground (arith, none_lem rows)

  others_lem :
      (x : EntityId) (rows : List Notification)
      → (x == user) ≡ false
      → count (is_unread_of x) (update_where (is_unread_of user) read rows)
        ≡ count (is_unread_of x) rows
  unfolding count update_where
  others_lem x [] h = refl
  others_lem x (n ∷ rows) h = ground (arith, others_lem x rows h)

  -- After all notifications of a user are marked as read, none of theirs is unread, and nobody
  -- else's count changes.
  pub mark_all_read_lem :
      (d : NotificationTables)
      → (count_unread user (mark_all_read user d).1 ≡ 0)
        × ((x : EntityId)
            → (x == user) ≡ false
            → count_unread x (mark_all_read user d).1 ≡ count_unread x d)
  unfolding mark_all_read count_unread
  mark_all_read_lem d = (none_lem d.notifications, λ x h. others_lem x d.notifications h)

  one_lem :
      (i : EntityId) (rows : List Notification)
      → count (is_unread_of user) (update_where (has_id i) read rows)
          + count (λ n. is_unread_of user n && has_id i n) rows
        ≡ count (is_unread_of user) rows
  unfolding count update_where
  one_lem i [] = refl
  one_lem i (n ∷ rows) = ground (arith, one_lem i rows)

  select_lem :
      (rows : List Notification) → count (is_listed user true) rows ≡ count (is_unread_of user) rows
  select_lem rows = count_congr (is_listed user true) (is_unread_of user) rows (λ n. ground arith)

  -- The count of a user's unread notifications is the length of the list of them, where the limit
  -- is large enough.
  pub count_unread-get_by_user :
      (limit : ℕ) (d : NotificationTables)
      → count_unread user d ≤ limit
      → length (get_by_user user limit 0 true d) ≡ count_unread user d
  unfolding get_by_user count_unread
  count_unread-get_by_user limit d h =
      let n : length (order_by_desc time_of (select (is_listed user true) d.notifications))
          ≡ count (is_unread_of user) d.notifications =
        length-order_by_desc time_of (select (is_listed user true) d.notifications)
        ∙ (length-select (is_listed user true) d.notifications ∙ select_lem d.notifications) in
      rw
        (page-all limit (order_by_desc time_of (select (is_listed user true) d.notifications))
          (ground arith))
        n
