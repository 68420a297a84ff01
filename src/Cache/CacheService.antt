-- ===== src/Cache/CacheService.antt =====
-- src/fb/infrastructure/cache/cache_service.py
use facebook_clone.Prelude.{
  ℕ, ◌<◌, ◌≡◌, arith, Bool, true, Option, none, some, List, map, if◌then◌else◌, ltb,
}
use facebook_clone.Shared.EntityId.{Text}
use facebook_clone.Cache.KeyValue.{KeyValue}
use facebook_clone.Cache.Keys.{
  Entry, profile_entry, post_entry, friends_entry, friend_count_entry, notif_unread_entry, key_of,
  same_entry, text_eq-key_of, ttl_profile, ttl_post, ttl_user_posts, ttl_friends_list,
  ttl_friend_count, ttl_notif_unread, user_posts_key, post_key,
}
use facebook_clone.Cache.RedisCache.{Json, get, set, delete, mget, get-set, get-delete}

-- The seconds that an entry lives
unfoldable pub ttl_of : Entry → ℕ
ttl_of (profile_entry i) = ttl_profile
ttl_of (post_entry i) = ttl_post
ttl_of (friends_entry i) = ttl_friends_list
ttl_of (friend_count_entry i) = ttl_friend_count
ttl_of (notif_unread_entry i) = ttl_notif_unread

module _ {S V : Type 0} (redis : KeyValue S) (json : Json V) (works : Bool) where
  -- `get_profile`, `get_post`, `get_friends`, `get_friend_count` and `get_notif_unread`
  unfoldable pub get_entry : Entry → S → Option V
  get_entry entry s = get redis json works (key_of entry) s

  -- `set_profile` and so on
  unfoldable pub set_entry : Entry → V → S → S
  set_entry entry value s = set redis json works (key_of entry) value (ttl_of entry) s

  -- `invalidate_profile` and so on
  unfoldable pub invalidate_entry : Entry → S → S
  invalidate_entry entry s = delete redis json works (key_of entry) s

  unfoldable pub get_user_posts : Text → ℕ → ℕ → S → Option V
  get_user_posts user_id limit offset s =
      get redis json works (user_posts_key user_id limit offset) s

  unfoldable pub set_user_posts : Text → ℕ → ℕ → V → S → S
  set_user_posts user_id limit offset value s =
      set redis json works (user_posts_key user_id limit offset) value ttl_user_posts s

  unfoldable pub mget_posts : List Text → S → List (Option V)
  mget_posts post_ids s = mget redis json works (map post_key post_ids) s

ttl_pos : (e : Entry) → 0 < ttl_of e
unfolding ttl_of
ttl_pos (profile_entry i) = omega arith
ttl_pos (post_entry i) = omega arith
ttl_pos (friends_entry i) = omega arith
ttl_pos (friend_count_entry i) = omega arith
ttl_pos (notif_unread_entry i) = omega arith

module _ {S V : Type 0} (redis : KeyValue S) (json : Json V) (entry other : Entry) (value : V)
    (seconds : ℕ) (s : S) where
  -- An entry that is set is read until its time is over, an entry that is invalidated is not read,
  -- and neither changes what is read of any other entry.
  pub entries_lem :
      (get_entry redis json true other
          (redis.wait seconds (set_entry redis json true entry value s))
        ≡ (if same_entry entry other
            then (if ltb seconds (ttl_of entry) then some value else none)
            else get_entry redis json true other (redis.wait seconds s)))
      × (get_entry redis json true other
            (redis.wait seconds (invalidate_entry redis json true entry s))
          ≡ (if same_entry entry other
              then none
              else get_entry redis json true other (redis.wait seconds s)))
  unfolding get_entry set_entry invalidate_entry
  entries_lem = (
    ground (
      arith,
      text_eq-key_of entry other,
      get-set redis json (key_of entry) (key_of other) value (ttl_of entry) seconds s
          (ttl_pos entry),
    ),
    ground (
      arith,
      text_eq-key_of entry other,
      get-delete redis json (key_of entry) (key_of other) value (ttl_of entry) seconds s,
    ),
  )
