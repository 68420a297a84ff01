-- ===== src/Notification/Endpoints.antt =====
-- The endpoints of src/fb/presentation/rest/v1/notifications.py that read or drop the cached count,
-- on the committed tables and what Redis holds.
use mathlib.Core.Path.{subst}
use facebook_clone.Prelude.{sym, ℕ, ◌≡◌, arith, Bool, true, none, some}
use facebook_clone.Shared.Errors.{Result, ok, err}
use facebook_clone.Shared.EntityId.{EntityId, Text, Libraries, from_str}
use facebook_clone.Shared.TextEquality.{text_eq_refl}
use facebook_clone.Shared.Effects.{lift, ◌>>=◌}
use facebook_clone.UnitOfWork.{endpoint}
use facebook_clone.UnitOfWork.Transactions.{endpoint-committing}
use facebook_clone.Cache.KeyValue.{KeyValue}
use facebook_clone.Cache.Keys.{notif_unread_entry, same_entry}
use facebook_clone.Cache.RedisCache.{Json}
use facebook_clone.Cache.CacheService.{get_entry, set_entry, invalidate_entry, entries_lem}
use facebook_clone.Notification.Entities.{NotificationTables}
use facebook_clone.Notification.Repository.{count_unread, mark_all_read}
use facebook_clone.Notification.Inbox.{mark_read_use_case, mark_all_read_use_case}
use facebook_clone.Notification.Unread.{mark_all_read_lem}

module _ {S : Type 0} (libs : Libraries) (redis : KeyValue S) (json : Json ℕ) (works : Bool) where
  -- `get_unread_count`
  unfoldable pub get_unread_count : Text → NotificationTables → S → Result ℕ × S
  get_unread_count current_user_id d s =
      elim (get_entry redis json works (notif_unread_entry current_user_id) s) [
        | some cached ↦ (ok cached, s)
        | none ↦ elim (from_str libs current_user_id) [
          | err e ↦ (err e, s)
          | ok uid ↦ (
            ok (count_unread uid d),
            set_entry redis json works (notif_unread_entry current_user_id) (count_unread uid d) s,
          )
        ]
      ]

  -- After an endpoint that has not raised, the count of the user is dropped.
  abbrev pub dropping :
      Text → S → Result {0} Unit × NotificationTables → Result {0} Unit × NotificationTables × S
  dropping current_user_id s (ok u, d) =
      (ok u, d, invalidate_entry redis json works (notif_unread_entry current_user_id) s)
  dropping current_user_id s (err e, d) = (err e, d, s)

  -- `mark_notification_read` and `mark_all_read`
  unfoldable pub post_read :
      Text → Text → NotificationTables → S → Result {0} Unit × NotificationTables × S
  post_read notification_id current_user_id d s =
      dropping current_user_id s
        (endpoint (mark_read_use_case libs notification_id current_user_id) d)

  unfoldable pub post_read_all :
      Text → NotificationTables → S → Result {0} Unit × NotificationTables × S
  post_read_all current_user_id d s =
      dropping current_user_id s (endpoint (mark_all_read_use_case libs current_user_id) d)

module _ {S : Type 0} (libs : Libraries) (redis : KeyValue S) (json : Json ℕ) (user : Text)
    (uid : EntityId) (d : NotificationTables) (s : S) (seconds : ℕ) where
  post_read_all_lem :
      from_str libs user ≡ ok uid
      → post_read_all libs redis json true user d s ≡ (
        ok tt,
        (mark_all_read uid d).1,
        invalidate_entry redis json true (notif_unread_entry user) s,
      )
  unfolding post_read_all mark_all_read_use_case mark_all_read
  post_read_all_lem p =
      ground
        (arith, p, endpoint-committing (do uid ← lift (from_str libs user); mark_all_read uid) d)

  count_lem :
      from_str libs user ≡ ok uid
      → (let t = invalidate_entry redis json true (notif_unread_entry user) s in
          (get_unread_count libs redis json true user
            (mark_all_read uid d).1
            (redis.wait seconds t)).0
          ≡ ok 0)
  unfolding get_unread_count same_entry
  count_lem p = ground (
    arith,
    p,
    (entries_lem redis json (notif_unread_entry user) (notif_unread_entry user) 0 seconds s).1,
    text_eq_refl user,
    (mark_all_read_lem uid d).0,
  )

  -- Whatever count was cached, a user whose text is an identifier and who marks everything as read
  -- is answered 0 at any time after, where Redis works and no notification has changed since.
  pub get_unread_count-post_read_all :
      from_str libs user ≡ ok uid
      → (let r = post_read_all libs redis json true user d s in
          (get_unread_count libs redis json true user r.1 (redis.wait seconds r.2)).0 ≡ ok 0)
  get_unread_count-post_read_all p =
      subst
        (λ (r : Result {0} Unit × NotificationTables × S).
          (get_unread_count libs redis json true user r.1 (redis.wait seconds r.2)).0 ≡ ok 0)
        (sym (post_read_all_lem p)) (count_lem p)
