-- ===== src/Feed/Repository.antt =====
-- src/fb/infrastructure/repositories/feed_repo.py. A query without ORDER BY gives the rows as the
-- table has them.
use facebook_clone.Prelude.{
  ℕ, suc, Bool, true, ◌&&◌, ◌||◌, Option, none, some, List, ◌∷◌, ◌==◌, ltb, take, length, map,
  is_some, if◌then◌else◌,
}
use facebook_clone.Shared.Errors.{Result, ok, err, data_error}
use facebook_clone.Shared.EntityId.{EntityId, Text, Libraries}
use facebook_clone.Shared.Text.{is_empty}
use facebook_clone.Shared.Table.{select, count, exists, page, order_by_desc, order_by, first, last}
use facebook_clone.Chat.Cursor.{Codec, encode_cursor, decode_cursor}
use facebook_clone.Chat.Repository.{PageInfo}
use facebook_clone.Post.Entities.{Post}
use facebook_clone.Post.Tables.{PostTables}

-- The time of a row, which is never null
abbrev pub time_of : Post → ℕ
time_of p = elim p.created_at [ none ↦ 0 | some t ↦ t ]

-- `x.in_(ids)`
abbrev pub is_among : List EntityId → EntityId → Bool
is_among ids i = exists (λ x. x == i) ids

-- A published post of the user or of one of their friends
abbrev pub is_in_feed : EntityId → List EntityId → Post → Bool
is_in_feed user_id friend_ids p = is_among (user_id ∷ friend_ids) p.author_id && p.is_published

-- The query of the feed, newest first
abbrev pub feed_page : EntityId → List EntityId → ℕ → ℕ → PostTables → List Post
feed_page user_id friend_ids limit offset d =
    page limit offset (order_by_desc time_of (select (is_in_feed user_id friend_ids) d.posts))

unfoldable pub get_feed_post_ids : EntityId → List EntityId → ℕ → ℕ → PostTables → List EntityId
get_feed_post_ids user_id friend_ids limit offset d =
    map (λ p. p.id) (feed_page user_id friend_ids limit offset d)

unfoldable pub get_feed_posts : List EntityId → PostTables → List Post
get_feed_posts post_ids d = select (λ p. is_among post_ids p.id) d.posts

unfoldable pub get_feed_total_count : EntityId → List EntityId → PostTables → ℕ
get_feed_total_count user_id friend_ids d = count (is_in_feed user_id friend_ids) d.posts

pub record FeedCursorPage : Type 0 where
  pub items : List Post
  pub page_info : PageInfo
  pub total_count : ℕ

-- ORDER BY created_at DESC, id DESC
abbrev pub is_newer : Post → Post → Bool
is_newer x y = ltb (time_of y) (time_of x) || time_of y == time_of x && ltb y.id x.id

-- The filter of a cursor
abbrev pub is_older : ℕ → EntityId → Post → Bool
is_older cursor_time cursor_id p =
    ltb (time_of p) cursor_time || time_of p == cursor_time && ltb p.id cursor_id

module _ {libs : Libraries} (codec : Codec libs) where
  -- `encode_cursor(item.created_at, str(item.id))`, where there is an item
  abbrev pub cursor_of : Option Post → Option Text
  cursor_of none = none
  cursor_of (some p) = some (encode_cursor codec (time_of p) (libs.print_uuid p.id))

  -- The database reads the cursor's identifier as a UUID.
  abbrev pub older_filter : Result (ℕ × Text) → Result (Post → Bool)
  older_filter (err e) = err e
  older_filter (ok parts) = elim (libs.parse_uuid parts.1) [
    | none ↦ err data_error
    | some i ↦ ok (is_older parts.0 i)
  ]

  -- `if after_cursor:`
  abbrev pub cursor_filter : Option Text → Result (Post → Bool)
  cursor_filter none = ok (λ p. true)
  cursor_filter (some cursor) =
      if is_empty cursor then ok (λ p. true) else older_filter (decode_cursor codec cursor)

  unfoldable pub get_feed_posts_cursor :
      EntityId → List EntityId → ℕ → Option Text → PostTables → Result FeedCursorPage
  get_feed_posts_cursor user_id friend_ids n after_cursor d = elim (cursor_filter after_cursor) [
    | err e ↦ err e
    | ok is_after ↦
        let models =
          take (suc n) (
            order_by is_newer (select is_after (select (is_in_feed user_id friend_ids) d.posts))) in
        let items = take n models in
        ok (record {
          items = items;
          page_info = record {
            has_next_page = ltb n (length models);
            has_previous_page = is_some after_cursor;
            start_cursor = cursor_of (first items);
            end_cursor = cursor_of (last items);
          };
          total_count = count (is_in_feed user_id friend_ids) d.posts;
        })
  ]
