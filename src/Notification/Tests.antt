-- ===== src/Notification/Tests.antt =====
-- The theorems on notifications at small tables: user 1 has an unread notification from user 2.
use facebook_clone.Prelude.{◌≡◌, refl, true, false, some, [], ◌∷◌, length, arith}
use facebook_clone.Shared.Errors.{ok}
use facebook_clone.Shared.Samples.{libs}
use facebook_clone.Shared.Text.{codes}
use facebook_clone.Shared.Table.{count}
use facebook_clone.Notification.Entities.{Notification, NotificationTables, like}
use facebook_clone.Notification.Repository.{count_unread, get_by_user}
use facebook_clone.Auth.Samples.{json, server, empty}
use facebook_clone.Cache.Keys.{notif_unread_entry}
use facebook_clone.Cache.CacheService.{set_entry}
use facebook_clone.Notification.Endpoints.{
  get_unread_count, post_read_all, get_unread_count-post_read_all,
}
use facebook_clone.Notification.Unread.{count_unread-get_by_user}

abbrev liked : Notification
liked = record {
  id = 60;
  user_id = 1;
  actor_id = 2;
  kind = like;
  entity_id = 50 ∷ [];
  entity_type = codes "post";
  message_text = [];
  is_read = false;
  created_at = some 4;
}

abbrev tables : NotificationTables
tables = record { users = 1 ∷ 2 ∷ []; notifications = liked ∷ [] }

count_unread-get_by_user_example : length (get_by_user 1 20 0 true tables) ≡ count_unread 1 tables
unfolding count_unread count
count_unread-get_by_user_example = count_unread-get_by_user 1 20 tables (omega arith)

get_unread_count-post_read_all_example :
    (let cached = set_entry server json true (notif_unread_entry (1 ∷ [])) 1 empty in
      let r = post_read_all libs server json true (1 ∷ []) tables cached in
      (get_unread_count libs server json true (1 ∷ []) r.1 (server.wait 5 r.2)).0 ≡ ok 0)
get_unread_count-post_read_all_example =
    get_unread_count-post_read_all libs server json (1 ∷ []) 1 tables
      (set_entry server json true (notif_unread_entry (1 ∷ [])) 1 empty) 5 refl
